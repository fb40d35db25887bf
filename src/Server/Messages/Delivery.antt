-- ===== src/Server/Messages/Delivery.antt =====
-- eLibrary/src/server/eLibrary_server_handler.c: a message box as a table from contacts to messages, and
-- what a new message makes of it.
use morning_projects.Common.{
  ℕ, ◌+◌, ◌^◌, ◌<◌, ◌≡◌, refl, Bool, true, false, none, some, List, [], ◌∷◌, if◌then◌else◌, length,
  arith, Bool-cases, Option-cases, inl, inr, ap, ◌∙◌, sym, subst,
}
use morning_projects.Server.{
  Direction, receipt_in, receipt_out, undef, Msg, Contact, MsgBox, count_up,
}
use morning_projects.Server.Bytes.{Text, same_text, eq-same_text, same_text_refl}
use morning_projects.Server.Messages.{
  get_msg_node, count_unread, add_context, update_node, new_contact, deliver,
}

abbrev pub unread_of : List Msg → ℕ
unread_of [] = 0
unread_of (m ∷ ms) = (if m.unread then 1 else 0) + unread_of ms

abbrev pub sum_msg : List Contact → ℕ
sum_msg [] = 0
sum_msg (c ∷ cs) = c.num_msg + sum_msg cs

abbrev pub sum_unread : List Contact → ℕ
sum_unread [] = 0
sum_unread (c ∷ cs) = c.num_unread + sum_unread cs

-- a contact counts its messages and those unread, and no later node is for the same contact
abbrev pub AreCounted : List Contact → Type 0
AreCounted [] = Unit
AreCounted (c ∷ cs) =
    (c.num_msg ≡ length c.contexts)
    × (c.num_unread ≡ unread_of c.contexts)
    × (get_msg_node cs c.contact ≡ none)
    × AreCounted cs

-- the box counts what its contacts count
pub record IsBox (box : MsgBox) : Type 0 where
  pub counted : AreCounted box.msgs
  pub total : box.num_msg ≡ sum_msg box.msgs
  pub unread : box.num_unread ≡ sum_unread box.msgs

-- the messages with a contact, the latest first
abbrev pub messages : List Contact → Text → List Msg
messages [] name = []
messages (c ∷ cs) name = if same_text name c.contact then c.contexts else messages cs name

-- The table has the message before the others of its contact; those of all others are as before.
pub record Delivered (box sent : MsgBox) (name : Text) (m : Msg) : Type 0 where
  pub is_box : IsBox sent
  pub here : messages sent.msgs name ≡ m ∷ messages box.msgs name
  pub others :
      (other : Text)
      → same_text other name ≡ false
      → messages sent.msgs other ≡ messages box.msgs other

-- whether the message counts as unread
abbrev pub is_in : Direction → Bool
is_in receipt_in = true
is_in receipt_out = false
is_in undef = false

away :
    (other name contact : Text)
    → same_text other name ≡ false
    → same_text name contact ≡ true
    → same_text other contact ≡ false
away other name contact apart same = rw (sym (eq-same_text name contact same)) apart

messages_first :
    (cs : List Contact) (name : Text) → get_msg_node cs name ≡ none → messages cs name ≡ []
messages_first [] name e = refl
messages_first (c ∷ cs) name e = ground (arith, messages_first cs name)

module _ (d : Direction) (m : Msg) (name : Text) where
  count_unread_lem :
      (u : Bool) (n : ℕ)
      → u ≡ is_in d
      → n + 1 < 2 ^ 32
      → count_unread d n ≡ (if u then 1 else 0) + n
  count_unread_lem u n e small = ground arith

  update_node_here :
      (cs : List Contact) (c : Contact)
      → get_msg_node cs name ≡ some c
      → messages (update_node d m name cs) name ≡ m ∷ messages cs name
  update_node_here [] c e = cc
  update_node_here (c' ∷ cs) c e = ground (arith, update_node_here cs c)

  update_node_others :
      (cs : List Contact) (other : Text)
      → same_text other name ≡ false
      → messages (update_node d m name cs) other ≡ messages cs other
  update_node_others [] other apart = refl
  update_node_others (c' ∷ cs) other apart =
      ground (arith, away other name c'.contact apart, update_node_others cs other apart)

  get_msg_node-update_node :
      (cs : List Contact) (other : Text)
      → get_msg_node cs other ≡ none
      → get_msg_node (update_node d m name cs) other ≡ none
  get_msg_node-update_node [] other e = refl
  get_msg_node-update_node (c' ∷ cs) other e = ground (arith, get_msg_node-update_node cs other)

  update_node-AreCounted :
      (cs : List Contact)
      → m.unread ≡ is_in d
      → sum_msg cs + 1 < 2 ^ 32
      → sum_unread cs + 1 < 2 ^ 32
      → AreCounted cs
      → AreCounted (update_node d m name cs)
  update_node-AreCounted [] e s1 s2 h = tt
  update_node-AreCounted (c' ∷ cs) e s1 s2 (n1, n2, n3, rest) =
      elim (Bool-cases (same_text name c'.contact)) [
        | inl same ↦ rw same (
          omega arith,
          count_unread_lem m.unread c'.num_unread e (omega arith)
              ∙ ap (λ k. (if m.unread then 1 else 0) + k) n2,
          n3,
          rest,
        )
        | inr off ↦ rw off (
          n1,
          n2,
          get_msg_node-update_node cs c'.contact n3,
          update_node-AreCounted cs e (omega arith) (omega arith) rest,
        )
      ]

  sum_msg-update_node :
      (cs : List Contact) (c : Contact)
      → get_msg_node cs name ≡ some c
      → sum_msg cs + 1 < 2 ^ 32
      → sum_msg (update_node d m name cs) ≡ sum_msg cs + 1
  sum_msg-update_node [] c e small = cc
  sum_msg-update_node (c' ∷ cs) c e small = elim (Bool-cases (same_text name c'.contact)) [
    | inl same ↦ rw same (omega arith)
    | inr off ↦
        rw off
          (let rest = sum_msg-update_node cs c (rw off at e) (omega arith) in omega (arith, rest))
  ]

  sum_unread-update_node :
      (cs : List Contact) (c : Contact)
      → get_msg_node cs name ≡ some c
      → sum_unread cs + 1 < 2 ^ 32
      → sum_unread (update_node d m name cs) ≡ (if is_in d then 1 else 0) + sum_unread cs
  sum_unread-update_node [] c e small = cc
  sum_unread-update_node (c' ∷ cs) c e small = elim (Bool-cases (same_text name c'.contact)) [
    | inl same ↦
        rw same (
          let up = count_unread_lem (is_in d) c'.num_unread refl (omega arith) in omega (arith, up))
    | inr off ↦
        rw off (
          let rest = sum_unread-update_node cs c (rw off at e) (omega arith) in omega (arith, rest))
  ]

unread-le : (ms : List Msg) → unread_of ms < length ms + 1
unread-le [] = omega arith
unread-le (m ∷ ms) = ground (arith, unread-le ms)

sum_unread-le : (cs : List Contact) → AreCounted cs → sum_unread cs < sum_msg cs + 1
sum_unread-le [] h = omega arith
sum_unread-le (c ∷ cs) (n1, n2, n3, rest) =
    omega (arith, unread-le c.contexts, sum_unread-le cs rest, n1, n2)

same_flag :
    (d : Direction) (m : Msg)
    → m.unread ≡ is_in d
    → ◌≡◌ {A = ℕ} (if m.unread then 1 else 0) (if is_in d then 1 else 0)
same_flag d m e = ap {B = ℕ} (λ u. if u then 1 else 0) e

here_first :
    (d : Direction) (m : Msg) (name : Text) (cs : List Contact)
    → get_msg_node cs name ≡ none
    → messages (add_context d m (new_contact name) ∷ cs) name ≡ m ∷ messages cs name
here_first d m name cs first = ground (arith, same_text_refl name, messages_first cs name)

others_first :
    (d : Direction) (m : Msg) (name : Text) (cs : List Contact) (other : Text)
    → same_text other name ≡ false
    → messages (add_context d m (new_contact name) ∷ cs) other ≡ messages cs other
others_first d m name cs other apart = ground arith

-- the box with these contacts and one message more
abbrev updated : Direction → MsgBox → List Contact → MsgBox
updated d box cs = record {
  num_msg = count_up box.num_msg;
  num_unread = count_unread d box.num_unread;
  msgs = cs;
}

deliver-first :
    (d : Direction) (m : Msg) (name : Text) (box : MsgBox)
    → get_msg_node box.msgs name ≡ none
    → deliver d m name box ≡ updated d box (add_context d m (new_contact name) ∷ box.msgs)
deliver-first d m name box first = rw first refl

deliver-found :
    (d : Direction) (m : Msg) (name : Text) (box : MsgBox) (c : Contact)
    → get_msg_node box.msgs name ≡ some c
    → deliver d m name box ≡ updated d box (update_node d m name box.msgs)
deliver-found d m name box c found = rw found refl

pub deliver-Delivered :
    (d : Direction) (m : Msg) (name : Text) (box : MsgBox)
    → IsBox box
    → m.unread ≡ is_in d
    → box.num_msg + 1 < 2 ^ 32
    → Delivered box (deliver d m name box) name m
deliver-Delivered d m name box h e small =
    let few : sum_unread box.msgs + 1 < 2 ^ 32 =
      omega (arith, sum_unread-le box.msgs h.counted, h.total) in
    let up = count_unread_lem d m name (is_in d) box.num_unread refl (omega (arith, h.unread)) in
    let one = count_unread_lem d m name m.unread 0 e (omega arith) in
    elim (Option-cases (get_msg_node box.msgs name)) [
      | inl first ↦
          subst (λ sent. Delivered box sent name m) (sym (deliver-first d m name box first))
            (record {
              is_box = record {
                counted = (refl, one, first, h.counted);
                total = omega (arith, h.total);
                unread = omega (arith, up, one, h.unread, same_flag d m e);
              };
              here = here_first d m name box.msgs first;
              others = others_first d m name box.msgs;
            })
      | inr (c, found) ↦
          let sum = sum_msg-update_node d m name box.msgs c found (omega (arith, h.total)) in
          let sum2 = sum_unread-update_node d m name box.msgs c found few in
          subst (λ sent. Delivered box sent name m) (sym (deliver-found d m name box c found))
            (record {
              is_box = record {
                counted =
                    update_node-AreCounted d m name box.msgs e (omega (arith, h.total)) few
                      h.counted;
                total = omega (arith, sum, h.total);
                unread = omega (arith, sum2, up, h.unread);
              };
              here = update_node_here d m name box.msgs c found;
              others = update_node_others d m name box.msgs;
            })
    ]
