-- ===== src/Chat/Snapshots.antt =====
-- A broadcast goes to those that were in the list when it began.
use raner.Common.{
  ℕ, suc, ◌==◌, ◌≡◌, ◌≢◌, refl, sym, ap, ◌∙◌, subst, true, false, Bool-cases, inl, inr, Option,
  Option-cases, none, some, List, [], ◌∷◌, ◌++◌, append_assoc, length, if◌then◌else◌, ok,
  ok-injective, arith,
}
use mathlib.Core.Option.{some-injective, none-ne-some}
use raner.Chat.{
  Action, Broadcast, Change, ChatServer, connection, finish, string_message, go_on, run, make_chat,
  nth,
}
use raner.Chat.Plain.{
  Delivery, Plain, deliver, deliver_from, deliver_next, make_plain, plain_act, plain_start,
  plain_with, plain_run,
}
use raner.Chat.Places.{nth-replace, nth-replace_other, nth-append_last, nth-append_le}
use raner.Chat.Pairs.{AllPairs, nth-AllPairs, nth-AllPairs-none}
use raner.Chat.Refinement.{Matches, Refines}
use raner.Chat.Refinement.Runs.{run_lem, run-Goes}

-- Of the message `m` to `l`, so much is sent.
pub record IsOf (m l : List ℕ) (d : Delivery) : Type 0 where
  pub for_message : d.message ≡ m
  pub in_order : d.sent ++ d.left ≡ l
  pub all_sent : d.running ≡ false → d.left ≡ []

abbrev Delivers : List ℕ → List ℕ → ℕ → Plain → Type 0
Delivers m l i q = (d : Delivery) × (nth i q.deliveries ≡ some d) × IsOf m l d

deliver_other :
    (i j : ℕ) (d : Delivery) (x : List ℕ) (q : Plain)
    → i ≢ j
    → nth i (deliver j d x q).deliveries ≡ nth i q.deliveries
deliver_other i j d [] q h = nth-replace_other i j q.deliveries (record d { running = false }) h
deliver_other i j d (c ∷ rest) q h =
    nth-replace_other i j q.deliveries (record d { left = rest; sent = d.sent ++ (c ∷ []) }) h

module _ (m l : List ℕ) (i : ℕ) where
  deliver-Delivers :
      (d : Delivery) (x : List ℕ) (q : Plain)
      → nth i q.deliveries ≡ some d
      → IsOf m l d
      → d.running ≡ true
      → d.left ≡ x
      → Delivers m l i (deliver i d x q)
  deliver-Delivers d [] q at w up e = (
    record d { running = false },
    nth-replace i q.deliveries d (record d { running = false }) at,
    record { for_message = w.for_message; in_order = w.in_order; all_sent = λ down. e },
  )
  deliver-Delivers d (c ∷ rest) q at w up e =
      let d' : Delivery = record d { left = rest; sent = d.sent ++ (c ∷ []) } in
      (
        d',
        nth-replace i q.deliveries d d' at,
        record {
          for_message = w.for_message;
          in_order = append_assoc d.sent (c ∷ []) rest ∙ ap (◌++◌ d.sent) (sym e) ∙ w.in_order;
          all_sent = λ down. absurd (ground (arith, up, down));
        },
      )

  deliver_from-Delivers :
      (j : ℕ) (d : Delivery) (q : Plain)
      → nth j q.deliveries ≡ some d
      → Delivers m l i q
      → Delivers m l i (deliver_from (some d) j q)
  deliver_from-Delivers j d q at (d', at', w) = elim (Bool-cases d.running) [
    | inl up ↦
        subst (Delivers m l i) (ap (λ u. if u then deliver j d d.left q else q) (sym up))
          (elim (Bool-cases (i == j)) [
            | inl same ↦
                let e : j ≡ i = ground (arith, same) in
                let here : nth i q.deliveries ≡ some d =
                  ap (λ k. nth k q.deliveries) (sym e) ∙ at in
                let one : d' ≡ d = some-injective d' d (sym at' ∙ here) in
                subst (λ k. Delivers m l i (deliver k d d.left q)) (sym e)
                  (deliver-Delivers d d.left q here (subst (IsOf m l) one w) up refl)
            | inr other ↦ (d', deliver_other i j d d.left q (ground (arith, other)) ∙ at', w)
          ])
    | inr down ↦
        subst (Delivers m l i) (ap (λ u. if u then deliver j d d.left q else q) (sym down))
          (d', at', w)
  ]

  deliver_next-Delivers : (j : ℕ) (q : Plain) → Delivers m l i q → Delivers m l i (deliver_next j q)
  deliver_next-Delivers j q h = elim (Option-cases (nth j q.deliveries)) [
    | inl absent ↦ subst (λ o. Delivers m l i (deliver_from o j q)) (sym absent) h
    | inr (d, at) ↦
        subst (λ o. Delivers m l i (deliver_from o j q)) (sym at) (deliver_from-Delivers j d q at h)
  ]

  plain_with-Delivers :
      (h : Option Change) (a : Action) (q : Plain)
      → Delivers m l i q
      → Delivers m l i (plain_with h a q)
  plain_with-Delivers none (connection c) q was = was
  plain_with-Delivers none finish q was = was
  plain_with-Delivers none (string_message m') q (d, at, w) =
      let new : Delivery = record { message = m'; left = q.members; sent = []; running = true } in
      (d, nth-append_le i q.deliveries (new ∷ []) d at, w)
  plain_with-Delivers none (go_on j) q was = deliver_next-Delivers j q was
  plain_with-Delivers (some h) (connection c) q was = was
  plain_with-Delivers (some h) finish q was = was
  plain_with-Delivers (some h) (string_message m') q was = was
  plain_with-Delivers (some h) (go_on j) q was = deliver_next-Delivers j q was

  plain_run-Delivers :
      (actions : List Action) (q : Plain) → Delivers m l i q → Delivers m l i (plain_run actions q)
  unfolding plain_run
  plain_run-Delivers [] q was = was
  plain_run-Delivers (a ∷ rest) q was =
      plain_run-Delivers rest (plain_act a q) (plain_with-Delivers q.holder a q was)

length-AllPairs :
    {A B : Type 0} (R : A → B → Type 0) (xs : List A) (ys : List B)
    → AllPairs R xs ys
    → length ys ≡ length xs
length-AllPairs R [] [] h = refl
length-AllPairs R [] (y ∷ ys) h = absurd h
length-AllPairs R (x ∷ xs) [] h = absurd h
length-AllPairs R (x ∷ xs) (y ∷ ys) (r, h) = ap suc (length-AllPairs R xs ys h)

started-Delivers :
    (m l : List ℕ) (q : Plain)
    → q.members ≡ l
    → Delivers m l (length q.deliveries) (plain_start m q)
started-Delivers m l q e = (
  record { message = m; left = q.members; sent = []; running = true },
  nth-append_last q.deliveries
      (record { message = m; left = q.members; sent = []; running = true }),
  record { for_message = refl; in_order = e; all_sent = λ down. absurd (ground (arith, down)) },
)

-- What the plain server delivers is what the broadcast sends.
abbrev Sends : List ℕ → List ℕ → ℕ → ChatServer → Type 0
Sends m l i t =
    (b : Broadcast) × (rest : List ℕ) × (nth i t.broadcasts ≡ some b)
    × (b.message ≡ m)
    × (b.sent ++ rest ≡ l)
    × (b.running ≡ false → rest ≡ [])

Delivers-Sends :
    (m l : List ℕ) (i : ℕ) (t : ChatServer) (q : Plain)
    → Refines t q
    → Delivers m l i q
    → Sends m l i t
Delivers-Sends m l i t q r (d, at, w) = elim (Option-cases (nth i t.broadcasts)) [
  | inl absent ↦ absurd (
      none-ne-some d (
        sym
          (nth-AllPairs-none (Matches t.lists) i t.broadcasts q.deliveries r.same_broadcasts absent)
        ∙ at))
  | inr (b, here) ↦
      let (d', at', same) =
        nth-AllPairs (Matches t.lists) i t.broadcasts q.deliveries b r.same_broadcasts here in
      let e : d' ≡ d = some-injective d' d (sym at' ∙ at) in
      let w' : IsOf m l d' = subst (IsOf m l) (sym e) w in
      (
        b,
        d'.left,
        here,
        same.same_message ∙ w'.for_message,
        ap (λ x. x ++ d'.left) same.same_sent ∙ w'.in_order,
        λ down. w'.all_sent (sym same.same_running ∙ down),
      )
]

-- A message that comes to the chat server, while no thread changes its list, goes to the
-- connections of that moment's list, in their order and each once, whatever the threads do
-- afterwards: what is sent is at any time a front of that list, and all of it when the broadcast
-- has ended.
pub snapshot_lem :
    (before after : List Action) (m l : List ℕ) (s t : ChatServer)
    → run before make_chat ≡ ok s
    → s.holder ≡ none
    → s.lists s.connections ≡ some l
    → run (string_message m ∷ after) s ≡ ok t
    → (b : Broadcast) × (rest : List ℕ) × (nth (length s.broadcasts) t.broadcasts ≡ some b)
      × (b.message ≡ m)
      × (b.sent ++ rest ≡ l)
      × (b.running ≡ false → rest ≡ [])
unfolding plain_run
snapshot_lem before after m l s t came free members went =
    let q : Plain = plain_run before make_plain in
    let (s', came', r₀) = run_lem before in
    let r : Refines s q = subst (λ x. Refines x q) (ok-injective s' s (sym came' ∙ came)) r₀ in
    let (t', went', r₁) = run-Goes (string_message m ∷ after) s q r in
    let begun : plain_act (string_message m) q ≡ plain_start m q =
      ap (λ h. plain_with h (string_message m) q) (sym r.same_holder ∙ free) in
    let r' : Refines t (plain_run after (plain_start m q)) =
      subst (λ x. Refines x (plain_run after (plain_start m q)))
        (ok-injective t' t (sym went' ∙ went))
        (subst (λ x. Refines t' (plain_run after x)) begun r₁) in
    let same : q.members ≡ l = some-injective q.members l (sym r.same_members ∙ members) in
    let place : length q.deliveries ≡ length s.broadcasts =
      length-AllPairs (Matches s.lists) s.broadcasts q.deliveries r.same_broadcasts in
    Delivers-Sends m l (length s.broadcasts) t (plain_run after (plain_start m q)) r' (
      subst (λ i. Delivers m l i (plain_run after (plain_start m q))) place
        (plain_run-Delivers m l (length q.deliveries) after (plain_start m q)
          (started-Delivers m l q same)))
