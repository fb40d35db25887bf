-- ===== src/Server/Brief/Boxes.antt =====
-- eLibrary/src/client/eLibrary_client_output.c: `briefMsgBox` and `briefMsgContexts`.
use morning_projects.Common.{
  ℕ, zero, suc, ◌+◌, ◌-◌, Bool, true, false, Option, none, some, List, [], ◌∷◌, ◌++◌, ltb, ◌==◌,
  if◌then◌else◌, ◌>>=◌, length,
}
use morning_projects.Server.{Direction, receipt_in, receipt_out, undef, Msg, Contact, MsgBox}
use morning_projects.Server.Bytes.{Text, take}
use morning_projects.Server.Brief.{printed}
use morning_projects.Server.Brief.Usage.{bytes}

abbrev spaces : ℕ → Text
spaces zero = []
spaces (suc n) = 32 ∷ spaces n

-- `%10s` and the like
abbrev padded : ℕ → Text → Text
padded n t = spaces (n - length t) ++ t

abbrev direction_text : Direction → Text
direction_text receipt_in = bytes "received"
direction_text receipt_out = bytes "sent"
direction_text undef = bytes "sent"

abbrev unread_text : Bool → Text
unread_text true = bytes "unread"
unread_text false = bytes "read"

-- "..." where the text is longer
abbrev dots : ℕ → Text → Text
dots n t = if ltb n (length t) then bytes "..." else []

module _ (print lite : ℕ → Text) where
  -- the line of a contact, about its latest message
  abbrev pub box_line : Contact → Text
  box_line c = elim c.contexts [
    | [] ↦ []
    | m ∷ ms ↦ take 65 (
        bytes "        ["
        ++ (padded 10 c.contact
            ++ (bytes "]["
                ++ (padded 9 (lite m.datetime)
                    ++ (bytes "]["
                        ++ (padded 8 (direction_text m.io)
                            ++ (bytes "]["
                                ++ (unread_text m.unread
                                    ++ (bytes "]-"
                                        ++ (take 10 m.msg ++ (dots 10 m.msg ++ bytes "\n")))))))))))
  ]

  -- The loop of `briefMsgBox`: once it has counted more than four contacts, it does not stop at the
  -- end of the list.
  abbrev pub box_lines : ℕ → List Contact → Option Text
  box_lines counter [] = if ltb 4 counter then none else some []
  box_lines counter (c ∷ cs) = box_lines (counter + 1) cs >>= λ t. some (box_line c ++ t)

  -- `briefMsgBox` of a host that is not NULL
  abbrev pub brief_msg_box : Bool → MsgBox → Option (Option Text)
  brief_msg_box false box = some none
  brief_msg_box true box =
      let lines = box_lines 0 box.msgs in
      if box.num_msg == 0
      then some (some (take 25 (bytes "Your msg inbox is empty.\n")))
      else lines >>= λ t. some (
          some (
            printed (
              bytes "There are "
              ++ (print box.num_msg
                  ++ (bytes " messages in your inbox, "
                      ++ (print box.num_unread ++ bytes " unread.\n"))))
            ++ t))

  abbrev pub context_line : Msg → Text
  context_line m = take 55 (
      bytes "["
      ++ (padded 9 (lite m.datetime)
          ++ (bytes "]["
              ++ (padded 8 (direction_text m.io)
                  ++ (bytes "]["
                      ++ (unread_text m.unread
                          ++ (bytes "]: "
                              ++ (padded 10 m.msg ++ (dots 11 m.msg ++ bytes "\n")))))))))

  -- the loop of `briefMsgContexts`, which does not stop at the end of the list either
  abbrev pub context_lines : ℕ → List Msg → Option Text
  context_lines counter [] = if ltb 4 counter then none else some []
  context_lines counter (m ∷ ms) =
      context_lines (counter + 1) ms >>= λ t. some (context_line m ++ t)

  abbrev pub contexts_header : Contact → Text
  contexts_header c = printed (
      bytes "There are "
      ++ (print c.num_msg ++ (bytes " messages, " ++ (print c.num_unread ++ bytes " unread.\n"))))

  -- `briefMsgContexts` of a node that is not NULL: the reply, and the node, whose messages are now
  -- counted as read
  abbrev pub brief_msg_contexts : Bool → Contact → Option (Option Text × Contact)
  brief_msg_contexts false c = some (none, c)
  brief_msg_contexts true c = context_lines 0 c.contexts >>= λ t.
      some (some (contexts_header c ++ t), record c { num_unread = 0 })
