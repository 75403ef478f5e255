-- ===== src/Diagnostics/Validation.antt =====
-- What `validate_free_blocks` establishes.
use mathlib.Core.Bool.{false≢true}
use native.Mathlib.Decide.{ℕ_discrete}
use fixed_size_memory_pool.Base.{
  ℕ, zero, suc, ◌<◌, ◌≡◌, refl, sym, ap, ◌∙◌, arith, Bool, true, false, not, ◌||◌, leb, ◌==◌,
  Bool-cases, inl, inr, List, [], ◌∷◌, length, get_or, set, has, replicate, Distinct, Below,
  length-set, length-replicate, get_or-set_self, get_or-set_ne, get_or-replicate, Result, ok,
  throw_if-ok, ◌>>=◌, Result-cases, err≢ok, ok-inj,
}
use fixed_size_memory_pool.Diagnostics.{
  BlockState, free, is_free, bool_ne, mark_seen, compare_states, validate_free_blocks,
}

-- The marks `out` are `seen` and the indices of a list that has no index twice, none already seen,
-- and none out of range or allocated.
record Marked (states : List BlockState) (seen : List Bool) (xs : List ℕ) (out : List Bool)
    : Type 0 where
  distinct : Distinct xs
  below : Below (length states) xs
  fresh : (i : ℕ) → has i xs ≡ true → get_or seen i false ≡ false
  marks : (i : ℕ) → get_or out i false ≡ (has i xs || get_or seen i false)
  same : length out ≡ length seen

mark_seen-Marked :
    (states : List BlockState) (xs : List ℕ) (seen out : List Bool)
    → length seen ≡ length states
    → mark_seen states xs seen ≡ ok out
    → Marked states seen xs out
unfolding mark_seen
mark_seen-Marked states [] seen out size h = record {
  distinct = tt;
  below = tt;
  fresh = λ i m. absurd (false≢true m);
  marks = λ i. ap (λ (o : List Bool). get_or o i false) (sym (ok-inj h));
  same = ap length (sym (ok-inj h));
}
mark_seen-Marked states (x ∷ rest) seen out size h =
    let (range, h1) = throw_if-ok (leb (length states) x) _ _ _ h in
    let (unseen, h2) = throw_if-ok (get_or seen x false) _ _ _ h1 in
    let (unused, h3) = throw_if-ok (not (is_free (get_or states x free))) _ _ _ h2 in
    let inside : x < length seen = ground (arith, size, range) in
    let later =
      mark_seen-Marked states rest (set seen x true) out (length-set seen x true ∙ size) h3 in
    let marked = get_or-set_self seen x true false inside in
    let apart : has x rest ≡ false = elim (Bool-cases (has x rest)) [
      | inl twice ↦ absurd (false≢true (sym (later.fresh x twice) ∙ marked))
      | inr once ↦ once
    ] in
    record {
      distinct = (apart, later.distinct);
      below = (ground (arith, range), later.below);
      fresh = λ i m. elim (ℕ_discrete i x) [
        | yes here ↦ ap (λ n. get_or seen n false) here ∙ unseen
        | no other ↦
            sym (get_or-set_ne seen x i true false (λ e. other (sym e)))
            ∙ later.fresh i (ground arith)
      ];
      marks = λ i. elim (ℕ_discrete i x) [
        | yes here ↦ ground (arith, later.marks i, marked, apart, here)
        | no other ↦
            ground (arith, later.marks i, get_or-set_ne seen x i true false (λ e. other (sym e)))
      ];
      same = later.same ∙ length-set seen x true;
    }

bool_ne-eq : (a b : Bool) → bool_ne a b ≡ false → a ≡ b
bool_ne-eq true true h = refl
bool_ne-eq true false h = absurd (false≢true (sym h))
bool_ne-eq false true h = absurd (false≢true (sym h))
bool_ne-eq false false h = refl

compare_states-agree :
    (states : List BlockState) (seen : List Bool) (i : ℕ)
    → compare_states states seen ≡ ok tt
    → i < length states
    → is_free (get_or states i free) ≡ get_or seen i false
unfolding compare_states
compare_states-agree [] seen i h inside = absurd (omega arith)
compare_states-agree (s ∷ states) [] zero h inside =
    bool_ne-eq _ _ (throw_if-ok (bool_ne (is_free s) false) _ _ _ h).0
compare_states-agree (s ∷ states) [] (suc i) h inside =
    compare_states-agree states [] i (throw_if-ok (bool_ne (is_free s) false) _ _ _ h).1
      (ground arith)
compare_states-agree (s ∷ states) (b ∷ seen) zero h inside =
    bool_ne-eq _ _ (throw_if-ok (bool_ne (is_free s) b) _ _ _ h).0
compare_states-agree (s ∷ states) (b ∷ seen) (suc i) h inside =
    compare_states-agree states seen i (throw_if-ok (bool_ne (is_free s) b) _ _ _ h).1
      (ground arith)

-- Where `validate_free_blocks` returns, the free list has the expected length, no index twice and
-- none out of range, and a block is marked free exactly if its index is on the list.
pub validate_free_blocks-agree :
    (states : List BlockState) (free_indices : List ℕ) (expected : ℕ)
    → validate_free_blocks states free_indices expected ≡ ok tt
    → (length free_indices ≡ expected)
      × Distinct free_indices
      × Below (length states) free_indices
      × ((i : ℕ) → i < length states → is_free (get_or states i free) ≡ has i free_indices)
unfolding validate_free_blocks
validate_free_blocks-agree states free_indices expected h =
    let (counted, h1) = throw_if-ok (not (length free_indices == expected)) _ _ _ h in
    let none_seen = replicate (length states) false in
    elim (Result-cases (mark_seen states free_indices none_seen)) [
      | inl (e, thrown) ↦ absurd (
          err≢ok e tt
            (sym (ap (λ (r : Result (List Bool)). r >>= compare_states states) thrown) ∙ h1))
      | inr (out, done) ↦
          let marked =
            mark_seen-Marked states free_indices none_seen out
              (length-replicate (length states) false) done in
          let compared =
            sym (ap (λ (r : Result (List Bool)). r >>= compare_states states) done) ∙ h1 in
          (
            ground (arith, counted),
            marked.distinct,
            marked.below,
            λ i inside.
                compare_states-agree states out i compared inside
                ∙ ground
                    (arith, marked.marks i, get_or-replicate (length states) i false false inside),
          )
    ]
