-- ===== src/Server/Messages/Inbox.antt =====
-- eLibrary/src/server/eLibrary_server_handler.c: what `sendReceiveMsg` makes of a message box.
use morning_projects.Common.{
  ℕ, ◌+◌, ◌^◌, ◌<◌, ◌≡◌, refl, Bool, true, false, Option, none, some, length, arith,
}
use morning_projects.Server.{ok, fail, Direction, receipt_in, receipt_out, MsgBox, max_name_length}
use morning_projects.Server.Bytes.{Text}
use morning_projects.Server.Messages.{
  EventRounds, Notified, notify_exchange, new_context, deliver, is_first, Sent, send_receive,
  send_receive_msg,
}
use morning_projects.Server.Messages.Delivery.{IsBox, Delivered, deliver-Delivered}

module _ (exchange : EventRounds) (box : MsgBox) (host name msg : Text) (now : ℕ) where
  comes_in :
      length name < max_name_length
      → send_receive (true, true) exchange box host name msg receipt_in now
        ≡ some (ok, deliver receipt_in (new_context receipt_in now msg) name box, none)
  unfolding send_receive
  comes_in short = ground arith

  goes_out :
      length name < max_name_length
      → (n : Notified) → notify_exchange exchange.rounds exchange.pending host name msg ≡ some n
      → send_receive (true, true) exchange box host name msg receipt_out now
        ≡ some (n.result, deliver receipt_out (new_context receipt_out now msg) name box, some n)
  unfolding send_receive
  goes_out short n e = rw e (ground arith)

-- a call that does not store the message
abbrev pub Refused : MsgBox → Option Sent → Type 0
Refused box r = r ≡ some (fail, box, none)

no_memory :
    (ready contact_ok : Bool) (exchange : EventRounds) (box : MsgBox) (host name msg : Text)
    (d : Direction) (now : ℕ)
    → Refused box
        (send_receive_msg ready (false, contact_ok) exchange box host (some name) (some msg) d now)
unfolding send_receive_msg send_receive
no_memory true contact_ok exchange box host name msg d now = refl
no_memory false contact_ok exchange box host name msg d now = refl

no_contact :
    (ready : Bool) (exchange : EventRounds) (box : MsgBox) (host name msg : Text) (d : Direction)
    (now : ℕ)
    → is_first box name ≡ true
    → Refused box
        (send_receive_msg ready (true, false) exchange box host (some name) (some msg) d now)
unfolding send_receive_msg send_receive
no_contact true exchange box host name msg d now first = rw first refl
no_contact false exchange box host name msg d now first = refl

-- Of a box that counts its messages, `sendReceiveMsg` with a name below MAX_NAME_LENGTH bytes makes
-- one that counts them and has the new message before the others of its contact, all other
-- contacts' messages staying as they are: for a message that comes in with status OK, and for one
-- that goes out with the status of `notifyExchange`, whatever that is, as long as the count of its
-- messages stays below 2 ^ 32. Without memory for the message, or for the contact of a first message, or
-- where message exchange is not ready, the status is a failure and the box stays as it is; without memory
-- for a contact, a message of a known contact comes in as with it.
pub send_receive_msg-Delivered :
    (exchange : EventRounds) (box : MsgBox) (host name msg : Text) (now : ℕ)
    → IsBox box
    → box.num_msg + 1 < 2 ^ 32
    → length name < max_name_length
    → ((sent : MsgBox) × (send_receive_msg true
            (true, true)
            exchange
            box
            host
            (some name)
            (some msg)
            receipt_in
            now
          ≡ some (ok, sent, none))
        × Delivered box sent name (new_context receipt_in now msg))
      × ((n : Notified)
          → notify_exchange exchange.rounds exchange.pending host name msg ≡ some n
          → (sent : MsgBox) × (send_receive_msg true
                (true, true)
                exchange
                box
                host
                (some name)
                (some msg)
                receipt_out
                now
              ≡ some (n.result, sent, some n))
            × Delivered box sent name (new_context receipt_out now msg))
      × ((d : Direction) (memory : Bool × Bool)
          → Refused box
              (send_receive_msg false memory exchange box host (some name) (some msg) d now))
      × ((d : Direction) (ready contact_ok : Bool)
          → Refused box (
              send_receive_msg ready
                (false, contact_ok)
                exchange
                box
                host
                (some name)
                (some msg)
                d
                now))
      × ((d : Direction) (ready : Bool)
          → is_first box name ≡ true
          → Refused box
              (send_receive_msg ready (true, false) exchange box host (some name) (some msg) d now))
      × (is_first box name ≡ false
          → send_receive_msg true
              (true, false)
              exchange
              box
              host
              (some name)
              (some msg)
              receipt_in
              now
            ≡ some (ok, deliver receipt_in (new_context receipt_in now msg) name box, none))
unfolding send_receive_msg send_receive
send_receive_msg-Delivered exchange box host name msg now h small short = (
  (
    deliver receipt_in (new_context receipt_in now msg) name box,
    comes_in exchange box host name msg now short,
    deliver-Delivered receipt_in (new_context receipt_in now msg) name box h refl small,
  ),
  (λ n e. (
    deliver receipt_out (new_context receipt_out now msg) name box,
    goes_out exchange box host name msg now short n e,
    deliver-Delivered receipt_out (new_context receipt_out now msg) name box h refl small,
  )),
  (λ d memory. refl),
  (λ d ready contact_ok. no_memory ready contact_ok exchange box host name msg d now),
  (λ d ready first. no_contact ready exchange box host name msg d now first),
  (λ known. rw known refl),
)
