-- ===== src/Server/Commands/KeptInbox.antt =====
-- eLibrary/src/client/eLibrary_client_parse.c: `msg` and the thread of messages leave the users and
-- their names.
use morning_projects.Common.{ℕ, Bool, true, false, Option, none, some, List, [], ◌∷◌, refl, ◌&&◌}
use morning_projects.Server.{
  Ptr, Status, ok, fail, Contact, Library, receipt_out, receipt_in, max_name_length, max_msg_length,
}
use morning_projects.Server.Bytes.{Text}
use morning_projects.Server.Messages.{
  no_rounds, get_msg_info, send_receive_msg, SystemEvent, evt_undef, msg_sent, other_event,
}
use morning_projects.Server.Users.{get_user_info}
use morning_projects.Server.Receiver.{keep_box, receive, fits_in, input_msg}
use morning_projects.Server.Brief.{hlp_msg}
use morning_projects.Server.Brief.Boxes.{brief_msg_box, brief_msg_contexts}
use morning_projects.Server.Commands.{
  CmdLine, CommandEnv, Letter, letter_f, letter_d, letter_g, letter_b, letter_h, letter_s,
  other_letter, letter, is_ok, find_host, conclude,
}
use morning_projects.Server.Commands.Inbox.{
  read_messages, send_message, msg_option, msg_hosted, command_msg,
}
use morning_projects.Server.Commands.Yields.{
  Holds, Holds-read, Holds-if, SameUsers, Kept, SameUsers-refl, SameUsers-set_user,
}
use morning_projects.Server.Commands.Kept.{conclude-Kept, say-Kept}

module _ (env : CommandEnv) (l : Library) where
  here :
      (valid : Bool) (s : Status) (msg : Option Text) → Holds (Kept l) (conclude env valid s msg l)
  here valid s msg = conclude-Kept env l valid s msg l (SameUsers-refl l)

  read_messages-Kept :
      (name : Text) (host : Ptr) (found : Status × Option (Option Contact))
      → Holds (Kept l) (read_messages env name host l found)
  read_messages-Kept name host (s, some (some c)) =
      Holds-if (Kept l) (is_ok s) _ _
        (Holds-read (Kept l) (brief_msg_contexts env.print env.lite env.brief_memory c) _ (λ r.
          conclude-Kept env l true s r.0 _ (SameUsers-set_user l l (SameUsers-refl l) host _ refl)))
        (here true s none)
  read_messages-Kept name host (s, none) = Holds-if (Kept l) (is_ok s) none _ tt (here true s none)
  read_messages-Kept name host (s, some none) =
      Holds-if (Kept l) (is_ok s) none _ tt (here true s none)

  send_message-Kept :
      (name msg : Text) (host : Ptr) → Holds (Kept l) (send_message env name msg host l)
  send_message-Kept name msg host =
      let u = l.users host in
      Holds-read (Kept l)
        (send_receive_msg env.exchange_ready env.msg_memory env.exchange u.msg_box u.username
          (some name) (some msg) receipt_out env.now)
        _
        (λ r.
          conclude-Kept env l true ok none (keep_box l host r)
            (SameUsers-set_user l l (SameUsers-refl l) host _ refl))

  msg_option-Kept :
      (c : Letter) (ts : List Text) (host : Ptr) → Holds (Kept l) (msg_option env c ts host l)
  msg_option-Kept letter_f [] host = here false ok none
  msg_option-Kept letter_f (name ∷ ts) host =
      read_messages-Kept name host (get_msg_info (some (l.users host).msg_box) (some name) true)
  msg_option-Kept letter_s [] host = here false ok none
  msg_option-Kept letter_s (name ∷ []) host = here false ok none
  msg_option-Kept letter_s (name ∷ msg ∷ ts) host = send_message-Kept name msg host
  msg_option-Kept letter_h ts host = say-Kept env l hlp_msg none l (SameUsers-refl l)
  msg_option-Kept letter_b ts host = here false ok none
  msg_option-Kept letter_d ts host = here false ok none
  msg_option-Kept letter_g ts host = here false ok none
  msg_option-Kept other_letter ts host = here false ok none

  msg_hosted-Kept :
      (cs : List ℕ) (ts : List Text) (found : Option Ptr)
      → Holds (Kept l) (msg_hosted env l cs ts found)
  msg_hosted-Kept cs ts none = here true fail none
  msg_hosted-Kept [] ts (some host) =
      Holds-read (Kept l) (brief_msg_box env.print env.lite env.brief_memory (l.users host).msg_box)
        _ (here true ok)
  msg_hosted-Kept (c ∷ cs) ts (some host) = msg_option-Kept (letter c) ts host

  pub command_msg-Kept :
      (user_name : Text) (cmd : CmdLine) → Holds (Kept l) (command_msg env user_name l cmd)
  unfolding command_msg
  command_msg-Kept user_name cmd =
      Holds-read (Kept l) (find_host env user_name l) _ (msg_hosted-Kept cmd.option cmd.params)

module _ (l : Library) (memory : Bool × Bool) (now : ℕ) where
  receive-SameUsers :
      (sender msg : Text) (found : Option Ptr)
      → Holds (SameUsers l) (receive memory now l sender msg found)
  receive-SameUsers sender msg none = SameUsers-refl l
  receive-SameUsers sender msg (some p) =
      Holds-read (SameUsers l)
        (send_receive_msg true memory no_rounds (l.users p).msg_box (l.users p).username
          (some sender) (some msg) receipt_in now)
        _ (λ r. SameUsers-set_user l l (SameUsers-refl l) p _ refl)

  pub input_msg-SameUsers :
      (fuel : ℕ) (locks : Bool) (e : SystemEvent)
      → Holds (SameUsers l) (input_msg fuel locks memory now l e)
  unfolding input_msg
  input_msg-SameUsers fuel locks evt_undef = SameUsers-refl l
  input_msg-SameUsers fuel locks other_event = SameUsers-refl l
  input_msg-SameUsers fuel locks (msg_sent sender name msg) =
      Holds-if (SameUsers l)
        (fits_in sender max_name_length
          && (fits_in name max_name_length && fits_in msg max_msg_length))
        _ _
        (Holds-read (SameUsers l) (get_user_info fuel locks l name none) _
          (receive-SameUsers sender msg))
        tt
