-- ===== src/Server/Messages.antt =====
-- eLibrary/src/server/eLibrary_server_handler.c: the message boxes, `getMsgInfo`, `getMsgNode`,
-- `sendReceiveMsg` and `notifyExchange`.
pub mod Delivery
pub mod Inbox
pub mod Exchange
use morning_projects.Common.{
  ℕ, suc, ◌+◌, ◌%◌, ◌^◌, Bool, true, false, not, Option, none, some, List, [], ◌∷◌, ltb, ◌==◌,
  if◌then◌else◌, ◌>>=◌, length, ◌&&◌,
}
use morning_projects.Server.{
  Status, ok, fail, invalid_param, Direction, receipt_in, receipt_out, undef, Msg, Contact, MsgBox,
  count_up, max_name_length, max_msg_length,
}
use morning_projects.Server.Bytes.{Text, same_text, take}

-- `getMsgNode`
abbrev pub get_msg_node : List Contact → Text → Option Contact
get_msg_node [] name = none
get_msg_node (c ∷ cs) name = if same_text name c.contact then some c else get_msg_node cs name

-- `getMsgInfo`: `none` stands for an argument that is NULL. `*msgNode` is written where they are not;
-- that no node was found is reported by no status, since the code tests `msgNode` itself.
unfoldable pub get_msg_info : Option MsgBox → Option Text → Bool → Status × Option (Option Contact)
get_msg_info (some box) (some name) true = (ok, some (get_msg_node box.msgs name))
get_msg_info _ _ _ = (invalid_param, none)

-- `g_systemEvent` with `g_sysEvtPayload`: an event that is not handled yet, or none. The payload
-- of a message is the host's name, the friend's name and the message.
pub data SystemEvent : Type 0 where
  evt_undef : SystemEvent
  msg_sent : Text → Text → Text → SystemEvent
  other_event : SystemEvent

-- What `notifyExchange` meets in a round of its loop: what other threads made of the pending event
-- since the last one, and whether the lock, the signal and the unlock succeed.
pub record Round : Type 0 where
  pub meanwhile : SystemEvent → SystemEvent
  pub locks : Bool
  pub signals : Bool
  pub unlocks : Bool

-- the event pending when `notifyExchange` is called, and the rounds of its loop
pub record EventRounds : Type 0 where
  pub pending : SystemEvent
  pub rounds : List Round

abbrev pub no_rounds : EventRounds
no_rounds = record { pending = evt_undef; rounds = [] }

-- What it leaves: its result, the event, and whether it still holds `lock_exchange`.
pub record Notified : Type 0 where
  pub result : Status
  pub event : SystemEvent
  pub held : Bool

abbrev pub notified : Status → SystemEvent → Bool → Notified
notified result event held = record { result = result; event = event; held = held }

-- the bytes copied into `systemMsg`, those behind a terminator left out: `memcpy` takes them from
-- behind a shorter text, where it may lie at the end of its memory
abbrev pub system_msg : Text → Text → Text → SystemEvent
system_msg host name msg =
    msg_sent (take max_name_length host) (take max_name_length name) (take max_msg_length msg)

abbrev pub is_undef : SystemEvent → Bool
is_undef evt_undef = true
is_undef (msg_sent a b c) = false
is_undef other_event = false

-- `notifyExchange` with the event pending when it starts; `none` says that it is still trying when
-- the rounds are used up
unfoldable pub notify_exchange : List Round → SystemEvent → Text → Text → Text → Option Notified
notify_exchange [] pending host name msg = none
notify_exchange (r ∷ rounds) pending host name msg =
    let met = r.meanwhile pending in
    let rest = notify_exchange rounds met host name msg in
    let event = system_msg host name msg in
    if not r.locks
    then some (notified fail met false)
    else if is_undef met
    then some (if r.signals && r.unlocks then notified ok event false else notified fail event true)
    else if r.unlocks
    then rest
    else some (notified fail met true)

-- the counts of unread messages rise by one for a message that comes in
abbrev pub count_unread : Direction → ℕ → ℕ
count_unread receipt_in n = count_up n
count_unread receipt_out n = n
count_unread undef n = n

-- `newContext`; the flag is cleared by memset before it is set
abbrev pub new_context : Direction → ℕ → Text → Msg
new_context receipt_in now msg = record {
  io = receipt_in;
  unread = true;
  datetime = now;
  msg = take max_msg_length msg;
}
new_context receipt_out now msg = record {
  io = receipt_out;
  unread = false;
  datetime = now;
  msg = take max_msg_length msg;
}
new_context undef now msg = record {
  io = undef;
  unread = false;
  datetime = now;
  msg = take max_msg_length msg;
}

-- the new context before the others of its contact, and the contact's counts
abbrev pub add_context : Direction → Msg → Contact → Contact
add_context direction m c = record c {
  num_msg = count_up c.num_msg;
  num_unread = count_unread direction c.num_unread;
  contexts = m ∷ c.contexts;
}

-- the change to the node that `getMsgNode` found
abbrev pub update_node : Direction → Msg → Text → List Contact → List Contact
update_node direction m name [] = []
update_node direction m name (c ∷ cs) =
    if same_text name c.contact
    then add_context direction m c ∷ cs
    else c ∷ update_node direction m name cs

abbrev pub new_contact : Text → Contact
new_contact name = record { contact = name; num_msg = 0; num_unread = 0; contexts = [] }

-- the message box with the message; a first message puts its contact at the head
abbrev pub deliver : Direction → Msg → Text → MsgBox → MsgBox
deliver direction m name box = record {
  num_msg = count_up box.num_msg;
  num_unread = count_unread direction box.num_unread;
  msgs = elim (get_msg_node box.msgs name) [
    | none ↦ add_context direction m (new_contact name) ∷ box.msgs
    | some c ↦ update_node direction m name box.msgs
  ];
}

-- `getMsgNode` finds no node for the contact
abbrev pub is_first : MsgBox → Text → Bool
is_first box name = elim (get_msg_node box.msgs name) [ none ↦ true | some c ↦ false ]

-- the outcome of `sendReceiveMsg`: its result, the box, and what `notifyExchange` left, if called
abbrev pub Sent : Type 0
Sent = Status × MsgBox × Option Notified

-- `sendReceiveMsg` behind its tests: `allocated` says whether `malloc` gives the context and the
-- contact. A contact's name of MAX_NAME_LENGTH bytes or more is written past its field, or without
-- a terminator. Where the contact is not allocated, the context is freed.
unfoldable pub send_receive :
    Bool × Bool → EventRounds → MsgBox → Text → Text → Text → Direction → ℕ → Option Sent
unfolding notify_exchange
send_receive (context_ok, contact_ok) exchange box host name msg direction now =
    if not context_ok
    then some (fail, box, none)
    else if is_first box name && not contact_ok
    then some (fail, box, none)
    else if is_first box name && not (ltb (length name) max_name_length)
    then none
    else let sent = deliver direction (new_context direction now msg) name box in
      elim direction [
        | receipt_in ↦ some (ok, sent, none)
        | receipt_out ↦ notify_exchange exchange.rounds exchange.pending host name msg >>= λ n.
            some (n.result, sent, some n)
        | undef ↦ some (ok, sent, none)
      ]

-- `sendReceiveMsg`: `ready` is `g_msgExchange_ready`, and `none` stands for an argument that is
-- NULL
unfoldable pub send_receive_msg :
    Bool
    → Bool × Bool
    → EventRounds
    → MsgBox
    → Text
    → Option Text
    → Option Text
    → Direction
    → ℕ
    → Option Sent
unfolding send_receive
send_receive_msg ready memory exchange box host (some name) (some msg) direction now =
    if not ready
    then some (fail, box, none)
    else send_receive memory exchange box host name msg direction now
send_receive_msg ready memory exchange box host _ _ direction now = some (invalid_param, box, none)
