-- ===== src/Server/Receiver.antt =====
-- eLibrary/src/client/eLibrary_client_parse.c: `eLibrary_SVR_input_Msg`, the thread that brings the
-- messages of `notifyExchange` to the boxes of those they are for.
use morning_projects.Common.{
  ℕ, ◌+◌, ◌<◌, ◌^◌, ◌≡◌, refl, Bool, true, false, ◌&&◌, Option, none, some, [], ◌∷◌, ltb, ◌==◌,
  if◌then◌else◌, ◌>>=◌, length, arith, ap, ◌∙◌, sym, subst,
}
use morning_projects.Server.{
  Ptr, ok, MsgBox, receipt_in, receipt_out, Library, set_user, write_self, write_apart, write_named,
  max_name_length, max_msg_length,
}
use morning_projects.Server.Bytes.{Text, take_all}
use morning_projects.Server.Names.{first_named-SameNames, SameNames-all}
use morning_projects.Server.Messages.{
  SystemEvent, evt_undef, msg_sent, other_event, Round, EventRounds, no_rounds, notified,
  system_msg, notify_exchange, new_context, send_receive_msg, Sent,
}
use morning_projects.Server.Messages.Delivery.{IsBox, Delivered}
use morning_projects.Server.Messages.Inbox.{send_receive_msg-Delivered}
use morning_projects.Server.Messages.Exchange.{notify_exchange_lem}
use morning_projects.Server.Users.{get_user_info, get_frd_info}
use morning_projects.Server.Users.Search.{get_user_info_lem}

-- the box that `sendReceiveMsg` leaves to the user
abbrev pub keep_box : Library → Ptr → Sent → Library
keep_box l p (status, box, sent) = set_user l p (record (l.users p) { msg_box = box })

-- the message for the user that was found, and else no change
abbrev pub receive : Bool × Bool → ℕ → Library → Text → Text → Option Ptr → Option Library
receive memory now l sender msg none = some l
receive memory now l sender msg (some p) =
    send_receive_msg true memory no_rounds (l.users p).msg_box (l.users p).username (some sender)
      (some msg) receipt_in now
    >>= λ r. some (keep_box l p r)

-- a text that fits the array that it was copied into, with its terminator
abbrev pub fits_in : Text → ℕ → Bool
fits_in text size = ltb (length text) size

-- `eLibrary_SVR_input_Msg` with an event: the payload of a message is the sender's name, the name of the
-- user it is for, and the text. The event is then undefined again. Its status is not looked at.
unfoldable pub input_msg : ℕ → Bool → Bool × Bool → ℕ → Library → SystemEvent → Option Library
unfolding get_user_info send_receive_msg
input_msg fuel locks memory now l evt_undef = some l
input_msg fuel locks memory now l other_event = some l
input_msg fuel locks memory now l (msg_sent sender name msg) =
    if fits_in sender max_name_length
      && (fits_in name max_name_length && fits_in msg max_msg_length)
    then (get_user_info fuel locks l name none >>= λ found. receive memory now l sender msg found)
    else none

-- no event is pending, and the lock, the signal and the unlock succeed
abbrev pub open_round : Round
open_round = record { meanwhile = λ e. e; locks = true; signals = true; unlocks = true }

abbrev pub open_exchange : EventRounds
open_exchange = record { pending = evt_undef; rounds = open_round ∷ [] }

module _ (l : Library) (sender name msg : Text) (q : Ptr) (fuel now : ℕ) where
  input_msg-receive :
      length sender < max_name_length
      → length name < max_name_length
      → length msg < max_msg_length
      → length l.listed < fuel
      → get_frd_info l.users l.listed name ≡ some q
      → IsBox (l.users q).msg_box
      → (l.users q).msg_box.num_msg + 1 < 2 ^ 32
      → (u : Library) × (input_msg fuel true (true, true) now l (msg_sent sender name msg) ≡ some u)
        × Delivered (l.users q).msg_box (u.users q).msg_box sender (new_context receipt_in now msg)
  unfolding input_msg
  input_msg-receive short_sender short_name short_msg enough found is_box small =
      let box = (l.users q).msg_box in
      let (sent, sends, delivered) =
        (send_receive_msg-Delivered no_rounds box (l.users q).username sender msg now is_box small
          short_sender).0 in
      let fit_sender : fits_in sender max_name_length ≡ true = ground arith in
      let fit_name : fits_in name max_name_length ≡ true = ground arith in
      let fit_msg : fits_in msg max_msg_length ≡ true = ground arith in
      let search = ((get_user_info_lem l name none fuel enough).1 q found).0 refl in
      let u = keep_box l q (ok, sent, none) in
      (
        u,
        rw (fit_sender, fit_name, fit_msg, search, sends) refl,
        subst (λ b. Delivered box b sender (new_context receipt_in now msg))
            (sym (ap (λ v. v.msg_box) (write_self l.users q _))) delivered,
      )

-- A user whose box counts its messages sends a message to a name that another user is found under, whose
-- box counts its messages too, when no event is pending and all calls succeed, and the names and the text
-- fit their arrays. Then `sendReceiveMsg` answers OK with the message in the sender's box, and when
-- `eLibrary_SVR_input_Msg` has handled the event that `notifyExchange` left, the message is in the box
-- of the other user, unread, before the earlier messages of the sender, with all other messages as they
-- were.
pub input_msg-send_receive_msg :
    (l : Library) (h q : Ptr) (name msg : Text) (now later fuel : ℕ)
    → (q == h) ≡ false
    → get_frd_info l.users l.listed name ≡ some q
    → IsBox (l.users h).msg_box
    → IsBox (l.users q).msg_box
    → (l.users h).msg_box.num_msg + 1 < 2 ^ 32
    → (l.users q).msg_box.num_msg + 1 < 2 ^ 32
    → length (l.users h).username < max_name_length
    → length name < max_name_length
    → length msg < max_msg_length
    → length l.listed < fuel
    → (sent : MsgBox) × (event : SystemEvent) × (u : Library) × (send_receive_msg true
          (true, true)
          open_exchange
          (l.users h).msg_box
          (l.users h).username
          (some name)
          (some msg)
          receipt_out
          now
        ≡ some (ok, sent, some (notified ok event false)))
      × Delivered (l.users h).msg_box sent name (new_context receipt_out now msg)
      × (input_msg fuel true
            (true, true)
            later
            (set_user l h (record (l.users h) { msg_box = sent }))
            event
          ≡ some u)
      × Delivered
          (l.users q).msg_box
          (u.users q).msg_box
          (l.users h).username
          (new_context receipt_in later msg)
input_msg-send_receive_msg l h q name msg now later fuel other found box_h box_q small_h small_q
      short_h short_name short_msg enough =
    let sender = (l.users h).username in
    let event = msg_sent sender name msg in
    let cut : system_msg sender name msg ≡ event =
      rw
        (
          take_all max_name_length sender (omega arith),
          take_all max_name_length name (omega arith),
          take_all max_msg_length msg (omega arith),
        )
        refl in
    let notifies : notify_exchange (open_round ∷ []) evt_undef sender name msg
        ≡ some (notified ok event false) =
      (notify_exchange_lem sender name msg [] open_round [] evt_undef tt).1 refl refl
      ∙ ap (λ e. some (notified ok e false)) cut in
    let (sent, sends, delivered) =
      (send_receive_msg-Delivered open_exchange (l.users h).msg_box sender name msg now box_h
          small_h short_name).1
        (notified ok event false) notifies in
    let l' = set_user l h (record (l.users h) { msg_box = sent }) in
    let apart : l'.users q ≡ l.users q = write_apart l.users h _ q other in
    let names =
      SameNames-all (λ p. (l.users p).username) (λ p. (l'.users p).username)
        (write_named (λ u. u.username) l.users h _ refl) l.listed in
    let (u, receives, delivered') =
      input_msg-receive l' sender name msg q fuel later short_h short_name short_msg enough
        (first_named-SameNames (λ p. (l.users p).username) (λ p. (l'.users p).username) l.listed
            name names
          ∙ found)
        (rw apart box_q) (rw apart small_q) in
    (
      sent,
      event,
      u,
      sends,
      delivered,
      receives,
      subst (λ v. Delivered v.msg_box (u.users q).msg_box sender (new_context receipt_in later msg))
          apart delivered',
    )
