-- ===== src/Epoll/Invariant/ReadyList.antt =====
-- `AddToReadyList` and `RemoveFromReadyList` keep the invariant.
use raner.Common.{
  ℕ, ◌+◌, ◌-◌, ◌≡◌, refl, ap, subst, ◌∙◌, true, false, not, ◌&&◌, ◌||◌, none, some, List, [], ◌∷◌,
  ◌++◌, length, length-append, mem, remove, update, AreDistinct, mem-append, mem-remove,
  remove-append, remove-AreDistinct, length-remove, length-remove_le, remove_absent, arith, ◌==◌,
  Bool-cases, inl, inr, ok,
}
use raner.Kernel.{Kernel}
use raner.Epoll.{CbAndEventMask, EpollServer, is_empty, add_to_ready_list, remove_from_ready_list}
use raner.Epoll.Invariant.{Inv, Keeps}

is_empty_of_length : (xs : List ℕ) → length xs ≡ 0 → is_empty xs ≡ true
is_empty_of_length [] h = refl
is_empty_of_length (x ∷ xs) h = absurd (omega arith)

-- A node taken out of one of two lists leaves one node less.
length-remove_two :
    (x : ℕ) (xs ys : List ℕ)
    → AreDistinct (xs ++ ys)
    → (mem x xs || mem x ys) ≡ true
    → length (remove x xs) + length (remove x ys) + 1 ≡ length xs + length ys
length-remove_two x xs ys d h = omega (
  arith,
  length-remove x (xs ++ ys) d (mem-append x xs ys ∙ h),
  ap length (remove-append x xs ys),
  length-append (remove x xs) (remove x ys),
  length-append xs ys,
)

module _ (os : Kernel) where
  -- The state after the entry `e` at `fd` left its list.
  pub removed : ℕ → CbAndEventMask → EpollServer os → EpollServer os
  removed fd e s = record s {
    cb_map = update s.cb_map fd (some (record e { linked = false }));
    ready_list = remove fd s.ready_list;
    tmp_list = remove fd s.tmp_list;
    ready_list_size = s.ready_list_size - 1;
  }

  removed-Inv :
      (fd : ℕ) (e : CbAndEventMask) (s : EpollServer os)
      → Inv os s
      → s.cb_map fd ≡ some e
      → e.linked ≡ true
      → (e.cb ≡ none → ⊥)
      → Inv os (removed fd e s)
  unfolding removed
  removed-Inv fd e s v at on live = record {
    links =
        λ j. ground (arith, v.links j, mem-remove fd j s.ready_list, mem-remove fd j s.tmp_list);
    distinct =
        subst AreDistinct (remove-append fd s.ready_list s.tmp_list)
          (remove-AreDistinct fd (s.ready_list ++ s.tmp_list) v.distinct);
    size = omega (
      arith,
      v.size,
      length-remove_two fd s.ready_list s.tmp_list v.distinct (ground (arith, v.links fd)),
    );
    sound = λ j. ground (arith, v.sound j, v.sound fd);
    watches = λ j. ground (arith, v.watches j);
  }

  removed-empty :
      (fd : ℕ) (e : CbAndEventMask) (s : EpollServer os)
      → Inv os s
      → s.cb_map fd ≡ some e
      → e.linked ≡ true
      → (not ((removed fd e s).ready_list_size == 0)
          || is_empty (removed fd e s).ready_list && is_empty (removed fd e s).tmp_list)
        ≡ true
  unfolding removed
  removed-empty fd e s v at on = ground (
    arith,
    v.size,
    length-remove_two fd s.ready_list s.tmp_list v.distinct (ground (arith, v.links fd)),
    is_empty_of_length (remove fd s.ready_list),
    is_empty_of_length (remove fd s.tmp_list),
  )

  -- The entry of a registered descriptor leaves its list, if it is in one; no `DCHECK` fails.
  pub remove_from_ready_list_lem :
      (fd : ℕ) (e : CbAndEventMask) (s : EpollServer os)
      → Inv os s
      → s.cb_map fd ≡ some e
      → (s' : EpollServer os) × (remove_from_ready_list os fd e s ≡ ok s')
        × Keeps os s s'
        × (s'.cb_map fd ≡ some (record e { linked = false }))
        × (s'.kernel ≡ s.kernel)
        × (s'.tmp_list ≡ remove fd s.tmp_list)
  unfolding remove_from_ready_list removed
  remove_from_ready_list_lem fd e s v at = elim (Bool-cases e.linked) [
    | inl on ↦ (
      removed fd e s,
      rw (on, removed-empty fd e s v at on),
      record {
        inv = removed-Inv fd e s v at on (ground (arith, v.sound fd));
        same_use = λ j. ground arith;
        shorter = length-remove_le fd s.tmp_list;
      },
      ground arith,
      refl,
      refl,
    )
    | inr off ↦ (
      s,
      rw off,
      record { inv = v; same_use = λ j. refl; shorter = omega arith },
      ground arith,
      refl,
      ground (arith, v.links fd, remove_absent fd s.tmp_list),
    )
  ]

  -- An entry with a callback goes to the head of the list, unless it is in one.
  pub add_to_ready_list-Inv :
      (fd : ℕ) (e : CbAndEventMask) (s : EpollServer os)
      → Inv os s
      → s.cb_map fd ≡ some e
      → (e.cb ≡ none → ⊥)
      → Keeps os s (add_to_ready_list os fd e s)
  unfolding add_to_ready_list
  add_to_ready_list-Inv fd e s v at live = elim (Bool-cases e.linked) [
    | inl on ↦ rw on (record { inv = v; same_use = λ j. refl; shorter = omega arith })
    | inr off ↦ rw off (record {
      inv = record {
        links = λ j. ground (arith, v.links j, v.links fd);
        distinct = (ground (arith, v.links fd, mem-append fd s.ready_list s.tmp_list), v.distinct);
        size = omega (arith, v.size);
        sound = λ j. ground (arith, v.sound j, v.sound fd);
        watches = λ j. ground (arith, v.watches j);
      };
      same_use = λ j. ground arith;
      shorter = omega arith;
    })
  ]
