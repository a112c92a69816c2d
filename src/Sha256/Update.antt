-- ===== src/Sha256/Update.antt =====
-- `sha256_update` absorbs its bytes, in whatever pieces they come.
use fhdb_bootstrap_manager.Common.{
  ℕ, zero, suc, ◌+◌, ◌%◌, ◌^◌, ◌≤◌, ◌<◌, ◌≡◌, ◌⊎◌, refl, sym, ap, ap₂, subst, ◌∙◌, true, false,
  ◌&&◌, List, [], ◌∷◌, ◌++◌, arith, leb, ◌==◌, ◌!=◌, length, take-length, get_or, get_or-take,
  Bool-cases, inl, inr, drop, take, eq_nil, length-take, length-drop,
}
use fhdb_bootstrap_manager.Common.Bytes.{of_list, memcpy}
use fhdb_bootstrap_manager.Sha256.{
  Context, transform, fill_partial, whole_blocks, keep_rest, sha256_init, sha256_update,
}
use fhdb_bootstrap_manager.Sha256.Stream.{
  Progress, absorb, start, absorb-nil, absorb_short, absorb_full, transform-congr,
}
use fhdb_bootstrap_manager.Sha256.Fill.{Represents, copied, split_ahead, fill_stage}

-- A whole block hashed in place.
block_stage :
    (c : Context) (p : Progress) (xs : List ℕ)
    → Represents c p
    → p.pending ≡ []
    → 64 ≤ length xs
    → Represents
        (record c { state = transform c.state (of_list xs) })
        (record { state = transform p.state (of_list (p.pending ++ take 64 xs)); pending = [] })
block_stage c p xs r e h = record {
  state =
      ap₂ transform r.state refl
      ∙ transform-congr p.state (of_list xs) (of_list (take 64 xs))
          (λ i q. sym (get_or-take 64 xs i 0 q))
      ∙ ap (λ q. transform p.state (of_list (q ++ take 64 xs))) (sym e);
  used = r.used ∙ ap length e;
  room = omega arith;
  bytes = λ i q. absurd (omega (arith, q));
}

record Settled (c : Context) (left : List ℕ) (goal : Progress) : Type 0 where
  at : Progress
  represents : Represents c at
  ahead : absorb at left ≡ goal
  rest : (left ≡ []) ⊎ ((at.pending ≡ []) × (length left < 64))

more_blocks :
    (c : Context) (p : Progress) (xs : List ℕ)
    → Represents c p
    → (c.block_used == 0 && leb 64 (length xs)) ≡ true
    → (p.pending ≡ []) × (64 ≤ length xs)
more_blocks c p xs r e = (eq_nil p.pending (ground (arith, r.used)), ground arith)

no_more_blocks :
    (c : Context) (p : Progress) (xs : List ℕ)
    → Represents c p
    → (p.pending ≡ []) ⊎ (xs ≡ [])
    → (c.block_used == 0 && leb 64 (length xs)) ≡ false
    → (xs ≡ []) ⊎ ((p.pending ≡ []) × (length xs < 64))
no_more_blocks c p xs r (inr e) d = inl e
no_more_blocks c p xs r (inl e) d = inr (e, ground (arith, r.used, ap length e))

blocks_stage :
    (fuel : ℕ) (c : Context) (p : Progress) (xs : List ℕ)
    → Represents c p
    → (p.pending ≡ []) ⊎ (xs ≡ [])
    → length xs ≤ fuel
    → let (c', left) = whole_blocks fuel c xs in Settled c' left (absorb p xs)
unfolding whole_blocks
blocks_stage zero c p xs r i h = record {
  at = p;
  represents = r;
  ahead = refl;
  rest = inl (eq_nil xs (omega arith));
}
blocks_stage (suc fuel) c p xs r i h = elim (Bool-cases (c.block_used == 0 && leb 64 (length xs))) [
  | inl more ↦
      let (idle, enough) = more_blocks c p xs r more in
      let next : Progress = record {
        state = transform p.state (of_list (p.pending ++ take 64 xs));
        pending = [];
      } in
      let hashed : absorb p (take 64 xs) ≡ next =
        absorb_full p.state p.pending (take 64 xs)
          (omega (arith, length-take 64 xs enough, ap length idle))
          (omega (arith, length-take 64 xs enough)) in
      let goal : absorb next (drop 64 xs) ≡ absorb p xs =
        ap (λ q. absorb q (drop 64 xs)) (sym hashed) ∙ split_ahead p 64 xs in
      rw more (
        subst
          (λ g.
            let (c', left) =
              whole_blocks fuel (record c { state = transform c.state (of_list xs) })
                (drop 64 xs) in
            Settled c' left g)
          goal
          (blocks_stage fuel (record c { state = transform c.state (of_list xs) }) next (drop 64 xs)
            (block_stage c p xs r idle enough) (inl refl)
            (omega (arith, length-drop 64 xs, enough, h))))
  | inr done ↦
      rw done
        (record { at = p; represents = r; ahead = refl; rest = no_more_blocks c p xs r i done })
]

kept_whole :
    (c : Context) (p : Progress) (xs : List ℕ)
    → Represents c p
    → length xs < 64
    → Represents
        (record c { block = memcpy c.block 0 (of_list xs) (length xs); block_used = length xs })
        (record { state = p.state; pending = xs })
kept_whole c p xs r short = record {
  state = r.state;
  used = refl;
  room = short;
  bytes = λ i q.
      copied c.block 0 [] xs (length xs) i refl (λ j l. absurd (omega (arith, l))) (omega arith)
        (omega (arith, q))
      ∙ ap (λ t. get_or t i 0) (take-length xs);
}

kept :
    (c : Context) (x : ℕ) (xs : List ℕ)
    → keep_rest c (x ∷ xs) ≡ record c {
      block = memcpy c.block 0 (of_list (x ∷ xs)) (length (x ∷ xs));
      block_used = length (x ∷ xs);
    }
unfolding keep_rest
kept c x xs = let some_left : (length (x ∷ xs) != 0) ≡ true = ground arith in rw some_left

rest_stage :
    (c : Context) (p : Progress) (xs : List ℕ) (goal : Progress)
    → Represents c p
    → absorb p xs ≡ goal
    → (xs ≡ []) ⊎ ((p.pending ≡ []) × (length xs < 64))
    → Represents (keep_rest c xs) goal
unfolding keep_rest
rest_stage c p [] goal r a i = subst (Represents c) (sym (absorb-nil p) ∙ a) r
rest_stage c p (x ∷ xs) goal r a (inl e) = cc
rest_stage c p (x ∷ xs) goal r a (inr (idle, short)) =
    let all : p.pending ++ (x ∷ xs) ≡ x ∷ xs = ap (λ q. q ++ x ∷ xs) idle in
    let absorbed : record { state = p.state; pending = x ∷ xs } ≡ goal =
      ap (λ q. record { state = p.state; pending = q }) (sym all)
      ∙ sym (absorb_short p.state p.pending (x ∷ xs) (omega (arith, ap length idle, short)))
      ∙ a in
    rw (kept c x xs) (subst (Represents _) absorbed (kept_whole c p (x ∷ xs) r short))

recounted :
    (c : Context) (p : Progress) (n : ℕ)
    → Represents c p
    → Represents (record c { total_bytes = n }) p
recounted c p n r = record { state = r.state; used = r.used; room = r.room; bytes = r.bytes }

-- An update takes a context that represents some progress to one that represents the same bytes
-- absorbed one by one.
pub update_absorbs :
    (c : Context) (p : Progress) (xs : List ℕ)
    → Represents c p
    → Represents (sha256_update c xs) (absorb p xs)
unfolding sha256_update
update_absorbs c p xs r =
    let counted : Context = record c { total_bytes = (c.total_bytes + length xs) % 2 ^ 64 } in
    let filled = fill_stage counted p xs (recounted c p ((c.total_bytes + length xs) % 2 ^ 64) r) in
    let (c', left) = fill_partial counted xs in
    let hashed =
      blocks_stage (length left) c' filled.at left filled.represents filled.idle (omega arith) in
    let (c'', last) = whole_blocks (length left) c' left in
    rest_stage c'' hashed.at last (absorb p xs) hashed.represents (hashed.ahead ∙ filled.ahead)
      hashed.rest

pub init-Represents : Represents sha256_init start
init-Represents = record {
  state = refl;
  used = refl;
  room = omega arith;
  bytes = λ i q. absurd (omega (arith, q));
}
