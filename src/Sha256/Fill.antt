-- ===== src/Sha256/Fill.antt =====
-- What a context represents, and the filling of a partial block.
use fhdb_bootstrap_manager.Common.{
  ℕ, ◌+◌, ◌-◌, ◌≤◌, ◌<◌, ◌≡◌, ◌⊎◌, refl, sym, ap, ap₂, ◌∙◌, true, false, ◌&&◌, List, [], ◌++◌,
  arith, ◌==◌, ◌!=◌, length, length-append, take-length, lt→ltb, ge→ltb, get_or, get_or-append_left,
  get_or-append_right, get_or-take, Bool-cases, inl, inr, drop, take, drop-length, eq_nil,
  take-append-drop, length-take,
}
use native.Mathlib.Decide.{dec_lt}
use fhdb_bootstrap_manager.Common.Bytes.{Bytes, of_list, memcpy}
use fhdb_bootstrap_manager.Sha256.{Context, transform, fill_partial, close_block}
use fhdb_bootstrap_manager.Sha256.Stream.{
  Progress, absorb, absorb-nil, absorb-append, absorb_short, absorb_full, transform-congr,
}

-- The context holds the state, and the pending bytes at the front of its block.
pub record Represents (c : Context) (p : Progress) : Type 0 where
  pub state : c.state ≡ p.state
  pub used : c.block_used ≡ length p.pending
  pub room : length p.pending < 64
  pub bytes : (i : ℕ) → i < length p.pending → c.block i ≡ get_or p.pending i 0

-- Part way through an update: what is left takes the context to the goal.
pub record Stage (c : Context) (left : List ℕ) (goal : Progress) : Type 0 where
  pub at : Progress
  pub represents : Represents c at
  pub ahead : absorb at left ≡ goal
  pub idle : (at.pending ≡ []) ⊎ (left ≡ [])

-- The block after a copy behind the pending bytes.
pub copied :
    (block : Bytes) (used : ℕ) (p xs : List ℕ) (n i : ℕ)
    → used ≡ length p
    → ((j : ℕ) → j < length p → block j ≡ get_or p j 0)
    → n ≤ length xs
    → i < length p + n
    → memcpy block used (of_list xs) n i ≡ get_or (p ++ take n xs) i 0
copied block used p xs n i u h fits q = elim (dec_lt i (length p)) [
  | yes old ↦ ground (arith, h i old, get_or-append_left p (take n xs) i 0 old)
  | no new ↦ ground (
    arith,
    get_or-append_right p (take n xs) i 0 (omega arith),
    get_or-take n xs (i - length p) 0 (omega arith),
  )
]

pub still_open :
    (c : Context) (p : Progress) (xs : List ℕ)
    → Represents c p
    → length p.pending + length xs < 64
    → ((c.block_used + length xs) == 64) ≡ false
still_open c p xs r h = ground (arith, r.used)

-- A copy that leaves room in the block.
pub fill_short :
    (c : Context) (p : Progress) (xs : List ℕ)
    → Represents c p
    → length p.pending + length xs < 64
    → Represents
        (close_block (record c {
          block = memcpy c.block c.block_used (of_list xs) (length xs);
          block_used = c.block_used + length xs;
        }))
        (record p { pending = p.pending ++ xs })
fill_short c p xs r h = rw (still_open c p xs r h) (record {
  state = r.state;
  used = omega (arith, r.used, length-append p.pending xs);
  room = omega (arith, length-append p.pending xs);
  bytes = λ i q.
      copied c.block c.block_used p.pending xs (length xs) i r.used r.bytes (omega arith)
        (omega (arith, q, length-append p.pending xs))
      ∙ ap (λ t. get_or (p.pending ++ t) i 0) (take-length xs);
})

-- A copy of `n` bytes that fills it.
pub fill_full :
    (c : Context) (p : Progress) (xs : List ℕ) (n : ℕ)
    → Represents c p
    → length p.pending + n ≡ 64
    → n ≤ length xs
    → Represents
        (close_block (record c {
          block = memcpy c.block c.block_used (of_list xs) n;
          block_used = c.block_used + n;
        }))
        (record { state = transform p.state (of_list (p.pending ++ take n xs)); pending = [] })
fill_full c p xs n r h fits =
    let closed : ((c.block_used + n) == 64) ≡ true = ground (arith, r.used) in
    rw closed (record {
      state =
          ap₂ transform r.state refl
          ∙ transform-congr p.state _ _ (λ i q.
            copied c.block c.block_used p.pending xs n i r.used r.bytes fits (omega (arith, q, h)));
      used = refl;
      room = omega arith;
      bytes = λ i q. absurd (omega (arith, q));
    })

pub split_ahead :
    (p : Progress) (n : ℕ) (xs : List ℕ) → absorb (absorb p (take n xs)) (drop n xs) ≡ absorb p xs
split_ahead p n xs =
    sym (absorb-append p (take n xs) (drop n xs)) ∙ ap (absorb p) (take-append-drop n xs)

pub skipped :
    (c : Context) (p : Progress) (xs : List ℕ)
    → Represents c p
    → (c.block_used != 0 && length xs != 0) ≡ false
    → (p.pending ≡ []) ⊎ (xs ≡ [])
skipped c p xs r e = elim (Bool-cases (c.block_used == 0)) [
  | inl none_used ↦ inl (eq_nil p.pending (ground (arith, r.used)))
  | inr some_used ↦ inr (eq_nil xs (ground arith))
]

pub fill_stage :
    (c : Context) (p : Progress) (xs : List ℕ)
    → Represents c p
    → let (c', left) = fill_partial c xs in Stage c' left (absorb p xs)
unfolding fill_partial
fill_stage c p xs r = elim (Bool-cases (c.block_used != 0 && length xs != 0)) [
  | inr skip ↦
      rw skip (record { at = p; represents = r; ahead = refl; idle = skipped c p xs r skip })
  | inl busy ↦ elim (dec_lt (length xs) (64 - c.block_used)) [
    | yes short ↦
        rw (busy, lt→ltb _ _ short)
          (record {
            at = record p { pending = p.pending ++ xs };
            represents = fill_short c p xs r (omega (arith, r.used, r.room, short));
            ahead =
                ap (absorb (record p { pending = p.pending ++ xs })) (drop-length xs)
                ∙ absorb-nil (record p { pending = p.pending ++ xs })
                ∙ sym (absorb_short p.state p.pending xs (omega (arith, r.used, r.room, short)));
            idle = inr (drop-length xs);
          })
    | no long ↦
        let n = 64 - c.block_used in
        rw (busy, ge→ltb (length xs) (64 - c.block_used) (omega (arith, long)))
          (record {
            at = record {
              state = transform p.state (of_list (p.pending ++ take n xs));
              pending = [];
            };
            represents = fill_full c p xs n r (omega (arith, r.used, r.room)) (omega (arith, long));
            ahead =
                ap (λ q. absorb q (drop n xs))
                  (sym (
                    absorb_full p.state p.pending (take n xs)
                      (omega (arith, r.used, r.room, length-take n xs (omega (arith, long))))
                      (omega (arith, r.used, r.room, length-take n xs (omega (arith, long))))))
                ∙ split_ahead p n xs;
            idle = inl refl;
          })
  ]
]
