-- ===== src/Server/Commands/Inbox.antt =====
-- eLibrary/src/client/eLibrary_client_parse.c: `eLibrary_SVR_input_Msg`, the command.
use morning_projects.Common.{
  ℕ, ◌+◌, ◌-◌, ◌%◌, ◌^◌, true, Option, none, some, List, [], ◌∷◌, if◌then◌else◌, ◌>>=◌,
}
use morning_projects.Server.{Ptr, Status, ok, Contact, MsgBox, Library, receipt_out, set_user}
use morning_projects.Server.Bytes.{Text, same_text}
use morning_projects.Server.Messages.{get_msg_info, send_receive_msg}
use morning_projects.Server.Users.{get_user_info}
use morning_projects.Server.Receiver.{keep_box}
use morning_projects.Server.Brief.{hlp_msg}
use morning_projects.Server.Brief.Boxes.{brief_msg_box, brief_msg_contexts}
use morning_projects.Server.Commands.{
  CmdLine, CommandEnv, Answer, Letter, letter_f, letter_s, letter_h, letter, is_ok, find_host,
  conclude, invalid_cmd, failed_cmd, say,
}

-- the node that `getMsgNode` found is written
abbrev pub set_node : Text → Contact → List Contact → List Contact
set_node name c' [] = []
set_node name c' (c ∷ cs) = if same_text name c.contact then c' ∷ cs else c ∷ set_node name c' cs

-- `host->msgBox.numUnread -= numUnread`, with the node as `briefMsgContexts` left it
abbrev pub mark_read : Text → Contact → Contact → MsgBox → MsgBox
mark_read name c c' box = record box {
  num_unread = (box.num_unread + 2 ^ 32 - c.num_unread % 2 ^ 32) % 2 ^ 32;
  msgs = set_node name c' box.msgs;
}

-- `msg -f`: the node of the friend, if there is one, and its messages
abbrev pub read_messages :
    CommandEnv → Text → Ptr → Library → Status × Option (Option Contact) → Answer
read_messages env name host l (s, some (some c)) =
    if is_ok s
    then (brief_msg_contexts env.print env.lite env.brief_memory c >>= λ r.
        let u = l.users host in
        conclude env true s r.0
          (set_user l host (record u { msg_box = mark_read name c r.1 u.msg_box })))
    else conclude env true s none l
read_messages env name host l (s, _) = if is_ok s then none else conclude env true s none l

-- `msg -s`: the status of `sendReceiveMsg` is not looked at
abbrev pub send_message : CommandEnv → Text → Text → Ptr → Library → Answer
send_message env name msg host l =
    let u = l.users host in
    send_receive_msg env.exchange_ready env.msg_memory env.exchange u.msg_box u.username (some name)
      (some msg) receipt_out env.now
    >>= λ r. conclude env true ok none (keep_box l host r)

abbrev pub msg_option : CommandEnv → Letter → List Text → Ptr → Library → Answer
msg_option env letter_f [] host l = invalid_cmd env l
msg_option env letter_f (name ∷ ts) host l =
    read_messages env name host l (get_msg_info (some (l.users host).msg_box) (some name) true)
msg_option env letter_s (name ∷ msg ∷ ts) host l = send_message env name msg host l
msg_option env letter_s _ host l = invalid_cmd env l
msg_option env letter_h ts host l = say env hlp_msg none l
msg_option env _ ts host l = invalid_cmd env l

abbrev pub msg_hosted : CommandEnv → Library → List ℕ → List Text → Option Ptr → Answer
msg_hosted env l cs ts none = failed_cmd env l
msg_hosted env l [] ts (some host) =
    brief_msg_box env.print env.lite env.brief_memory (l.users host).msg_box >>= λ msg.
    conclude env true ok msg l
msg_hosted env l (c ∷ cs) ts (some host) = msg_option env (letter c) ts host l

-- `eLibrary_SVR_input_Msg`
unfoldable pub command_msg : CommandEnv → Text → Library → CmdLine → Answer
unfolding get_user_info get_msg_info send_receive_msg
command_msg env user_name l cmd =
    find_host env user_name l >>= λ found. msg_hosted env l cmd.option cmd.params found
