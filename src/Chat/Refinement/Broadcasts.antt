-- ===== src/Chat/Refinement/Broadcasts.antt =====
-- `onStringMessage`, by which a list is held and let go.
use raner.Common.{
  ℕ, ◌+◌, ◌-◌, ◌≤◌, ◌<◌, ◌≡◌, refl, sym, ap, ◌∙◌, subst, ◌==◌, true, false, Bool-cases,
  Option-cases, List-cases, inl, inr, none, some, List, [], ◌∷◌, ◌++◌, drop, drop-drop,
  if◌then◌else◌, arith,
}
use mathlib.Core.Option.{none-ne-some}
use raner.Chat.{
  Broadcast, ChatServer, start_broadcast, continue_broadcast, continue_from, advance, nth, replace,
  release,
}
use raner.Chat.Plain.{Plain, Delivery, plain_start, deliver, deliver_from, deliver_next}
use raner.Chat.Pairs.{
  append-AllPairs, replace-AllPairs, nth-AllPairs, nth-AllPairs-none, held, held_by, held_by-append,
  held_by-replace, held_by-nth,
}
use raner.Chat.Refinement.{Matches, Refines, Goes, lists_kept}

pub start_broadcast-Refines :
    (m : List ℕ) (s : ChatServer) (q : Plain)
    → Refines s q
    → s.holder ≡ none
    → Refines (start_broadcast m s) (plain_start m q)
start_broadcast-Refines m s q r free =
    let b : Broadcast = record {
      list = s.connections;
      message = m;
      place = 0;
      sent = [];
      running = true;
    } in
    record {
      same_members = r.same_members;
      same_holder = r.same_holder;
      same_broadcasts =
          append-AllPairs (Matches s.lists) s.broadcasts q.deliveries b
            (record { message = m; left = q.members; sent = []; running = true }) r.same_broadcasts
            (record {
              same_message = refl;
              same_sent = refl;
              same_running = refl;
              same_left = λ up. (q.members, r.same_members, refl);
            });
      counted = λ p. ground (arith, r.counted p, held_by-append p s.broadcasts b);
      fresh = λ p h. ground (arith, r.fresh p, h, r.counted p, r.counted s.connections);
      sole = λ c e. absurd (none-ne-some c (sym free ∙ e));
    }

-- What a shared pointer less leaves.
released_lists :
    (x : ℕ) (s : ChatServer) (p : ℕ)
    → 0 < (release x s).use_count p
    → (release x s).lists p ≡ s.lists p
released_lists x s p used = elim (Bool-cases (s.use_count x - 1 == 0)) [
  | inl last ↦ rw last (elim (Bool-cases (p == x)) [
    | inl same ↦ ground (arith, same, last, used)
    | inr other ↦ rw other refl
  ])
  | inr more ↦ rw more refl
]

-- The loop is at its end.
ended-Refines :
    (i : ℕ) (b : Broadcast) (s : ChatServer) (q : Plain) (d : Delivery)
    → Refines s q
    → nth i s.broadcasts ≡ some b
    → b.running ≡ true
    → Matches s.lists b d
    → Refines (advance i b [] s) (deliver i d [] q)
ended-Refines i b s q d r at up m =
    let b' : Broadcast = record b { running = false } in
    let d' : Delivery = record d { running = false } in
    let bs : List Broadcast = replace i b' s.broadcasts in
    let t : ChatServer = release b.list (record s { broadcasts = bs }) in
    let one : held b.list b ≡ 1 = ground (arith, up) in
    let none_now : (p : ℕ) → held p b' ≡ 0 = λ p. refl in
    let used : 1 ≤ s.use_count b.list =
      omega (arith, r.counted b.list, held_by-nth b.list i s.broadcasts b at, one) in
    let counted : (p : ℕ) → t.use_count p ≡ (if p == s.connections then 1 else 0) + held_by p bs =
      λ p. ground (arith, r.counted p, held_by-replace p i s.broadcasts b b' at, up, used) in
    record {
      same_members =
          released_lists b.list s s.connections (ground (arith, counted s.connections))
          ∙ r.same_members;
      same_holder = r.same_holder;
      same_broadcasts =
          lists_kept s.lists t.lists bs (replace i d' q.deliveries)
            (λ p some_held. released_lists b.list s p (omega (arith, counted p, some_held)))
            (replace-AllPairs (Matches s.lists) i s.broadcasts q.deliveries b' d' r.same_broadcasts
              (record {
                same_message = m.same_message;
                same_sent = m.same_sent;
                same_running = refl;
                same_left = λ e. absurd (ground (arith, e));
              }));
      counted = counted;
      fresh = λ p h. ground (arith, r.fresh p, h, used);
      sole = λ c e. ground (
        arith,
        r.sole c e,
        used,
        r.counted s.connections,
        held_by-nth s.connections i s.broadcasts b at,
        up,
      );
    }

-- It sends to one more.
sent-Refines :
    (i c : ℕ) (rest l : List ℕ) (b : Broadcast) (s : ChatServer) (q : Plain) (d : Delivery)
    → Refines s q
    → nth i s.broadcasts ≡ some b
    → b.running ≡ true
    → Matches s.lists b d
    → s.lists b.list ≡ some l
    → drop b.place l ≡ c ∷ rest
    → Refines (advance i b (c ∷ rest) s) (deliver i d (c ∷ rest) q)
sent-Refines i c rest l b s q d r at up m here begins =
    let b' : Broadcast = record b { place = b.place + 1; sent = b.sent ++ (c ∷ []) } in
    let d' : Delivery = record d { left = rest; sent = d.sent ++ (c ∷ []) } in
    record {
      same_members = r.same_members;
      same_holder = r.same_holder;
      same_broadcasts =
          replace-AllPairs (Matches s.lists) i s.broadcasts q.deliveries b' d' r.same_broadcasts
            (record {
              same_message = m.same_message;
              same_sent = ap (λ x. x ++ (c ∷ [])) m.same_sent;
              same_running = m.same_running;
              same_left = λ up. (l, here, sym (drop-drop 1 b.place l) ∙ ap (drop 1) begins);
            });
      counted = λ p. ground (arith, r.counted p, held_by-replace p i s.broadcasts b b' at);
      fresh = r.fresh;
      sole = r.sole;
    }

delivers :
    (i : ℕ) (d : Delivery) (q : Plain) (x : List ℕ)
    → d.running ≡ true
    → d.left ≡ x
    → deliver_from (some d) i q ≡ deliver i d x q
delivers i d q x up e =
    ap (λ u. if u then deliver i d d.left q else q) up ∙ ap (λ y. deliver i d y q) e

pub continue_broadcast-Goes :
    (i : ℕ) (s : ChatServer) (q : Plain)
    → Refines s q
    → Goes (continue_broadcast i s) (deliver_next i q)
unfolding continue_broadcast
continue_broadcast-Goes i s q r = elim (Option-cases (nth i s.broadcasts)) [
  | inl absent ↦ (
    s,
    rw absent refl,
    rw (nth-AllPairs-none (Matches s.lists) i s.broadcasts q.deliveries r.same_broadcasts absent) r,
  )
  | inr (b, at) ↦
      let (d, at', m) =
        nth-AllPairs (Matches s.lists) i s.broadcasts q.deliveries b r.same_broadcasts at in
      subst (λ x. Goes (continue_from x i s) (deliver_next i q)) (sym at)
        (subst (λ y. Goes (continue_from (some b) i s) (deliver_from y i q)) (sym at')
          (by b d at m))
]
  where
    by :
        (b : Broadcast) (d : Delivery)
        → nth i s.broadcasts ≡ some b
        → Matches s.lists b d
        → Goes (continue_from (some b) i s) (deliver_from (some d) i q)
    by b d at m = elim (Bool-cases b.running) [
      | inl up ↦
          let (l, here, left) = m.same_left up in
          let down : d.running ≡ true = sym m.same_running ∙ up in
          elim (List-cases (drop b.place l)) [
            | inl ends ↦ (
              advance i b [] s,
              rw (up, here, ends) refl,
              subst (Refines (advance i b [] s)) (sym (delivers i d q [] down (sym left ∙ ends)))
                  (ended-Refines i b s q d r at up m),
            )
            | inr (c, rest, begins) ↦ (
              advance i b (c ∷ rest) s,
              rw (up, here, begins) refl,
              subst (Refines (advance i b (c ∷ rest) s))
                  (sym (delivers i d q (c ∷ rest) down (sym left ∙ begins)))
                  (sent-Refines i c rest l b s q d r at up m here begins),
            )
          ]
      | inr down ↦ (
        s,
        rw down refl,
        subst (Refines s)
            (ap (λ u. if u then deliver i d d.left q else q) (sym down ∙ m.same_running)) r,
      )
    ]
