-- ===== src/Server/Commands/Reading.antt =====
-- eLibrary/src/client/eLibrary_client_parse.c: what `msg -f` makes of the box of a user.
use morning_projects.Common.{
  ℕ, ◌+◌, ◌-◌, ◌%◌, ◌^◌, ◌<◌, ◌≤◌, ◌≡◌, refl, ◌∙◌, ap, sym, subst, true, false, Option, none, some,
  List, [], ◌∷◌, ◌++◌, length, ◌>>=◌, ltb, arith, Bool-cases, inl, inr,
}
use morning_projects.Server.{Ptr, ok, Msg, Contact, MsgBox, Library, set_user, write_self}
use morning_projects.Server.Bytes.{Text, same_text}
use morning_projects.Server.Messages.{get_msg_node, get_msg_info}
use morning_projects.Server.Messages.Delivery.{sum_unread}
use morning_projects.Server.Brief.Boxes.{
  context_lines, context_line, contexts_header, brief_msg_contexts,
}
use morning_projects.Server.Commands.{CommandEnv, conclude}
use morning_projects.Server.Commands.Inbox.{
  set_node, mark_read, read_messages, msg_hosted, command_msg,
}
use morning_projects.Server.Commands.Replies.{IsSession, friend_cmd, find_host_lem}

few : (n : ℕ) → n < 5 → ltb 4 n ≡ false
few n h = ground arith

many : (n : ℕ) → 5 ≤ n → ltb 4 n ≡ true
many n h = ground arith

module _ (print lite : ℕ → Text) where
  context_lines_end :
      (counter : ℕ) (ms : List Msg)
      → counter + length ms < 5
      → (t : Text) × (context_lines print lite counter ms ≡ some t)
  context_lines_end counter [] h = ([], rw (few counter (omega arith)) refl)
  context_lines_end counter (m ∷ ms) h =
      let (t, e) = context_lines_end (counter + 1) ms (omega arith) in
      (context_line print lite m ++ t, rw e refl)

  contexts_told :
      (c : Contact)
      → length c.contexts < 5
      → (t : Text) × (brief_msg_contexts print lite true c
          ≡ some (some t, record c { num_unread = 0 }))
  contexts_told c few =
      let (t, e) = context_lines_end 0 c.contexts (omega (arith, few)) in
      (contexts_header print lite c ++ t, rw e refl)

  context_lines_faults :
      (counter : ℕ) (ms : List Msg)
      → 5 ≤ counter + length ms
      → context_lines print lite counter ms ≡ none
  context_lines_faults counter [] h = rw (many counter (omega arith)) refl
  context_lines_faults counter (m ∷ ms) h =
      rw (context_lines_faults (counter + 1) ms (omega arith)) refl

-- the box counts as unread what its contacts do
pub record IsTallied (box : MsgBox) : Type 0 where
  pub unread : box.num_unread ≡ sum_unread box.msgs
  pub small : box.num_unread < 2 ^ 32

the_one : (d c : Contact) → some d ≡ some c → d ≡ c
the_one d c e = cc

module _ (name : Text) (c c' : Contact) where
  sum_unread-set_node :
      (cs : List Contact)
      → get_msg_node cs name ≡ some c
      → sum_unread (set_node name c' cs) + c.num_unread ≡ sum_unread cs + c'.num_unread
  sum_unread-set_node [] e = cc
  sum_unread-set_node (d ∷ cs) e = elim (Bool-cases (same_text name d.contact)) [
    | inl here ↦
        let same : d.num_unread ≡ c.num_unread =
          ap (λ x. x.num_unread) (the_one d c (rw here at e)) in
        rw here (omega (arith, same))
    | inr there ↦
        let rest = sum_unread-set_node cs (rw there at e) in rw there (omega (arith, rest))
  ]

  get_msg_node-set_node :
      (cs : List Contact)
      → get_msg_node cs name ≡ some c
      → c'.contact ≡ c.contact
      → get_msg_node (set_node name c' cs) name ≡ some c'
  get_msg_node-set_node [] e same = cc
  get_msg_node-set_node (d ∷ cs) e same = elim (Bool-cases (same_text name d.contact)) [
    | inl here ↦
        let named : same_text name c'.contact ≡ true =
          subst (λ t. same_text name t ≡ true)
            (ap (λ x. x.contact) (the_one d c (rw here at e)) ∙ sym same) here in
        rw here (rw named refl)
    | inr there ↦ rw (there, there) (get_msg_node-set_node cs (rw there at e) same)
  ]

marked : (n m : ℕ) → m ≤ n → n < 2 ^ 32 → (n + 2 ^ 32 - m % 2 ^ 32) % 2 ^ 32 ≡ n - m
marked n m h small = omega arith

mark_read-IsTallied :
    (name : Text) (c : Contact) (box : MsgBox)
    → IsTallied box
    → get_msg_node box.msgs name ≡ some c
    → IsTallied (mark_read name c (record c { num_unread = 0 }) box)
      × ((mark_read name c (record c { num_unread = 0 }) box).num_unread + c.num_unread
          ≡ box.num_unread)
mark_read-IsTallied name c box tallied e =
    let left = sum_unread-set_node name c (record c { num_unread = 0 }) box.msgs e in
    let unread = tallied.unread in
    let less = marked box.num_unread c.num_unread (omega (arith, left, unread)) tallied.small in
    (
      record {
        unread = omega (arith, left, unread, less);
        small = omega (arith, less, tallied.small);
      },
      omega (arith, left, unread, less),
    )

module _ (env : CommandEnv) (l : Library) (user_name name : Text) (host : Ptr)
    (s : IsSession env l user_name host) where
  read_asked :
      (found : Option Contact)
      → get_msg_node (l.users host).msg_box.msgs name ≡ found
      → command_msg env user_name l (friend_cmd name)
        ≡ read_messages env name host l (ok, some found)
  unfolding command_msg get_msg_info
  read_asked found e =
      ap (λ o. o >>= λ f. msg_hosted env l (102 ∷ []) (name ∷ []) f)
        (find_host_lem env l user_name host s)
      ∙ ap (λ f. read_messages env name host l (ok, some f)) e

  -- the box as the command leaves it
  abbrev read_library : Contact → Contact → Library
  read_library c c' =
      set_user l host
        (record (l.users host) { msg_box = mark_read name c c' (l.users host).msg_box })

  read_answer :
      (c : Contact) (r : Option Text × Contact)
      → brief_msg_contexts env.print env.lite env.brief_memory c ≡ some r
      → read_messages env name host l (ok, some (some c)) ≡ some (r.0, read_library c r.1)
  read_answer c r e = ap (λ o. o >>= λ x. conclude env true ok x.0 (read_library c x.1)) e

  read_box :
      (c c' : Contact)
      → ((read_library c c').users host).msg_box ≡ mark_read name c c' (l.users host).msg_box
  read_box c c' = ap (λ u. u.msg_box) (write_self l.users host _)

-- Let the session's user be listed, with a box that counts as unread what its contacts do, and let
-- `msg -f` name the contact `c` of the box. With at most four messages and memory for the reply, it
-- replies with a text; the messages of `c` count as read, the box counts that many less, and it still
-- counts as unread what its contacts do. With more messages it reads through NULL. Without memory
-- the reply is NULL, and the box counts less while the contact counts as before. With the name of
-- no contact it reads through NULL.
pub command_msg-IsTallied :
    (env : CommandEnv) (l : Library) (user_name name : Text) (host : Ptr) (c : Contact)
    → IsSession env l user_name host
    → IsTallied (l.users host).msg_box
    → get_msg_node (l.users host).msg_box.msgs name ≡ some c
    → (env.brief_memory ≡ true
        → length c.contexts < 5
        → (t : Text) × (u : Library) × (command_msg env user_name l (friend_cmd name)
            ≡ some (some t, u))
          × IsTallied (u.users host).msg_box
          × ((u.users host).msg_box.num_unread + c.num_unread ≡ (l.users host).msg_box.num_unread)
          × (get_msg_node (u.users host).msg_box.msgs name ≡ some (record c { num_unread = 0 })))
      × (env.brief_memory ≡ true
          → 5 ≤ length c.contexts
          → command_msg env user_name l (friend_cmd name) ≡ none)
      × (env.brief_memory ≡ false
          → (u : Library) × (command_msg env user_name l (friend_cmd name) ≡ some (none, u))
            × ((u.users host).msg_box.num_unread + c.num_unread ≡ (l.users host).msg_box.num_unread)
            × (get_msg_node (u.users host).msg_box.msgs name ≡ some c))
      × ((stranger : Text)
          → get_msg_node (l.users host).msg_box.msgs stranger ≡ none
          → command_msg env user_name l (friend_cmd stranger) ≡ none)
command_msg-IsTallied env l user_name name host c s tallied e =
    let box = (l.users host).msg_box in
    let read = record c { num_unread = 0 } in
    let asked = read_asked env l user_name name host s (some c) e in
    let (tallied', count) = mark_read-IsTallied name c box tallied e in
    (
      λ memory few.
          let (t, reply) = contexts_told env.print env.lite c few in
          let told = read_box env l user_name name host s c read in
          (
            t,
            read_library env l user_name name host s c read,
            asked ∙ read_answer env l user_name name host s c (some t, read) (rw memory reply),
            subst IsTallied (sym told) tallied',
            subst (λ b. b.num_unread + c.num_unread ≡ box.num_unread) (sym told) count,
            subst (λ b. get_msg_node b.msgs name ≡ some read) (sym told)
                (get_msg_node-set_node name c read box.msgs e refl),
          ),
      λ memory more.
          asked
          ∙ rw (memory, context_lines_faults env.print env.lite 0 c.contexts (omega (arith, more)))
              refl,
      λ memory.
          let told = read_box env l user_name name host s c c in
          (
            read_library env l user_name name host s c c,
            asked ∙ read_answer env l user_name name host s c (none, c) (rw memory refl),
            subst (λ b. b.num_unread + c.num_unread ≡ box.num_unread) (sym told) count,
            subst (λ b. get_msg_node b.msgs name ≡ some c) (sym told)
                (get_msg_node-set_node name c c box.msgs e refl),
          ),
      λ stranger missing. read_asked env l user_name stranger host s none missing,
    )
