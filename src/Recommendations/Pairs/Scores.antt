-- ===== src/Recommendations/Pairs/Scores.antt =====
-- The last loop: a score for each pair with a user in common, the same both ways.
use native.Mathlib.Nat.{mul_comm}
use gechu_backend.Base.{
  ℕ, ◌+◌, ◌*◌, ◌≡◌, ◌∙◌, refl, ◌≤◌, ◌<◌, false, Option, none, some, List, [], ◌∷◌, arith, All,
  IsDistinct, leb, ◌==◌, if◌then◌else◌, Bool-cases, Option-cases, inl, inr, ◌⊎◌,
}
use gechu_backend.Base.Dict.{
  Dict, nat_eq, pair_eq, pair_beq, pair_beq_iff, lookup, insert, get_or, lookup-insert,
}
use gechu_backend.Recommendations.Pairs.{
  FloatScore, bump, pair_with, pair_games, pair_users, count_users, sorted, score_pair, score_pairs,
}
use gechu_backend.Recommendations.Pairs.Spec.{
  having, having_both, having_both-le, having_both_comm, set_score,
}
use gechu_backend.Recommendations.Pairs.Counts.{
  IsAscending, sorted-IsAscending, get_or-count_users, get_or-pair_users,
}

-- Each pair is kept once, the smaller game first, and counted at least once.
abbrev IsCount : Dict (ℕ × ℕ) ℕ → Type 0
IsCount [] = Unit
IsCount ((k, v) ∷ d) = (k.0 < k.1) × (0 < v) × (lookup k d ≡ none) × IsCount d

insert-IsCount :
    (k : ℕ × ℕ) (v : ℕ) (d : Dict (ℕ × ℕ) ℕ)
    → k.0 < k.1
    → 0 < v
    → IsCount d
    → IsCount (insert k v d)
insert-IsCount k v [] o p h = (o, p, refl, tt)
insert-IsCount k v ((i, w) ∷ d) o p h =
    ground (arith, pair_beq_iff k i, pair_beq_iff i k, lookup-insert k i v d, insert-IsCount k v d)

pair_with-IsCount :
    (g : ℕ) (ss : List ℕ) (d : Dict (ℕ × ℕ) ℕ)
    → All (λ s. g < s) ss
    → IsCount d
    → IsCount (pair_with g ss d)
unfolding pair_with
pair_with-IsCount g [] d a h = h
pair_with-IsCount g (s ∷ ss) d a h =
    pair_with-IsCount g ss (bump (g, s) d) a.1
      (insert-IsCount (g, s) (get_or (g, s) d 0 + 1) d a.0 (omega arith) h)

pair_games-IsCount :
    (gs : List ℕ) (d : Dict (ℕ × ℕ) ℕ) → IsAscending gs → IsCount d → IsCount (pair_games gs d)
unfolding pair_games
pair_games-IsCount [] d a h = h
pair_games-IsCount (g ∷ gs) d a h =
    pair_games-IsCount gs (pair_with g gs d) a.1 (pair_with-IsCount g gs d a.0 h)

pair_users-IsCount :
    (games : List (List ℕ)) (d : Dict (ℕ × ℕ) ℕ)
    → All IsDistinct games
    → IsCount d
    → IsCount (pair_users games d)
unfolding pair_users
pair_users-IsCount [] d a h = h
pair_users-IsCount (s ∷ rest) d a h =
    pair_users-IsCount rest (pair_games (sorted s) d) a.1
      (pair_games-IsCount (sorted s) d (sorted-IsAscending s a.0) h)

module _ (float : FloatScore) (counts : Dict ℕ ℕ) where
  -- What one turn writes under its pair, both ways.
  written : ℕ × ℕ → ℕ → Option ℕ → Option ℕ
  written (a, b) overlap old =
      let product = get_or a counts 0 * get_or b counts 0 in
      let score = float.quantized overlap product in
      if product == 0 then old else if leb score 0 then old else some score

  abbrev written_if : ℕ × ℕ → Option ℕ → Option ℕ → Option ℕ
  written_if k none old = old
  written_if k (some o) old = written k o old

  lookup-score_pair_self :
      (a b o : ℕ) (d : Dict (ℕ × ℕ) ℕ)
      → a < b
      → (lookup (a, b) (score_pair float counts (a, b) o d) ≡ written (a, b) o (lookup (a, b) d))
        × (lookup (b, a) (score_pair float counts (a, b) o d) ≡ written (a, b) o (lookup (b, a) d))
  unfolding score_pair written
  lookup-score_pair_self a b o d lt =
      let score = float.quantized o (get_or a counts 0 * get_or b counts 0) in
      (
        ground (
          arith,
          lookup-insert (b, a) (a, b) score (insert (a, b) score d),
          lookup-insert (a, b) (a, b) score d,
        ),
        ground (arith, lookup-insert (b, a) (b, a) score (insert (a, b) score d)),
      )

  lookup-score_pair_ne :
      (a b x y o : ℕ) (d : Dict (ℕ × ℕ) ℕ)
      → a < b
      → x < y
      → pair_beq (a, b) (x, y) ≡ false
      → (lookup (a, b) (score_pair float counts (x, y) o d) ≡ lookup (a, b) d)
        × (lookup (b, a) (score_pair float counts (x, y) o d) ≡ lookup (b, a) d)
  unfolding score_pair
  lookup-score_pair_ne a b x y o d lt lt' ne =
      let score = float.quantized o (get_or x counts 0 * get_or y counts 0) in
      (
        ground (
          arith,
          lookup-insert (y, x) (a, b) score (insert (x, y) score d),
          lookup-insert (x, y) (a, b) score d,
        ),
        ground (
          arith,
          lookup-insert (y, x) (b, a) score (insert (x, y) score d),
          lookup-insert (x, y) (b, a) score d,
        ),
      )

  -- No turn writes under a game paired with itself.
  lookup-score_pairs_same :
      (a : ℕ) (co d : Dict (ℕ × ℕ) ℕ)
      → IsCount co
      → lookup (a, a) (score_pairs float counts co d) ≡ lookup (a, a) d
  unfolding score_pairs score_pair
  lookup-score_pairs_same a [] d h = refl
  lookup-score_pairs_same a (((x, y), o) ∷ co) d h =
      let score = float.quantized o (get_or x counts 0 * get_or y counts 0) in
      lookup-score_pairs_same a co (score_pair float counts (x, y) o d) h.3
      ∙ ground (
        arith,
        lookup-insert (y, x) (a, a) score (insert (x, y) score d),
        lookup-insert (x, y) (a, a) score d,
      )

  lookup-score_pairs :
      (a b : ℕ) (co d : Dict (ℕ × ℕ) ℕ)
      → a < b
      → IsCount co
      → (lookup (a, b) (score_pairs float counts co d)
          ≡ written_if (a, b) (lookup (a, b) co) (lookup (a, b) d))
        × (lookup (b, a) (score_pairs float counts co d)
            ≡ written_if (a, b) (lookup (a, b) co) (lookup (b, a) d))
  unfolding score_pairs
  lookup-score_pairs a b [] d lt h = (refl, refl)
  lookup-score_pairs a b ((k, o) ∷ co) d lt h = elim (Bool-cases (pair_beq (a, b) k)) [
    | inl e ↦
        let same : (a, b) ≡ k = (pair_beq_iff (a, b) k).0 e in
        let gone : lookup (a, b) co ≡ none = rw same h.2 in
        let ih = lookup-score_pairs a b co (score_pair float counts (a, b) o d) lt h.3 in
        let now = lookup-score_pair_self a b o d lt in
        rw e (cc (same, ih.0, gone, now.0), cc (same, ih.1, gone, now.1))
    | inr e ↦
        let ih = lookup-score_pairs a b co (score_pair float counts k o d) lt h.3 in
        let before = lookup-score_pair_ne a b k.0 k.1 o d lt h.0 e in
        rw e (cc (ih.0, before.0), cc (ih.1, before.1))
  ]

lookup_pos : (k : ℕ × ℕ) (v : ℕ) (d : Dict (ℕ × ℕ) ℕ) → IsCount d → lookup k d ≡ some v → 0 < v
lookup_pos k v [] h e = cc
lookup_pos k v ((i, w) ∷ d) h e = ground (arith, lookup_pos k v d h.3)

product_pos : (o x y : ℕ) → 0 < o → o ≤ x → o ≤ y → 0 < x * y
product_pos o x y h hx hy = grind arith

abbrev present : ℕ → Option ℕ
present n = if n == 0 then none else some n

lt_cases : (a b : ℕ) → (a < b) ⊎ ((b < a) ⊎ (a ≡ b))
lt_cases a b = omega arith

module _ (games : List (List ℕ)) (distinct : All IsDistinct games) where
  -- The entry that `co_occurrence` keeps for a pair.
  lookup-pair_users :
      (a b : ℕ) → a < b → lookup (a, b) (pair_users games []) ≡ present (having_both a b games)
  lookup-pair_users a b lt =
      let count = get_or-pair_users a b games distinct in
      let valid = pair_users-IsCount games [] distinct tt in
      elim (Option-cases (lookup (a, b) (pair_users games []))) [
        | inl e ↦ ground arith
        | inr (v, e) ↦ ground (arith, lookup_pos (a, b) v (pair_users games []) valid e)
      ]

  module _ (float : FloatScore) where
    written-set_score :
        (a b : ℕ)
        → a < b
        → written_if float (count_users games []) (a, b) (present (having_both a b games)) none
          ≡ set_score float games a b
    unfolding written
    written-set_score a b lt = ground (
      arith,
      get_or-count_users a games distinct,
      get_or-count_users b games distinct,
      having_both-le a b games,
      product_pos (having_both a b games) (having a games) (having b games),
    )

    pub set_score_comm : (a b : ℕ) → set_score float games a b ≡ set_score float games b a
    set_score_comm a b =
        rw (having_both_comm a b games, mul_comm (having a games) (having b games)) (ground arith)

    lookup_both_ways :
        (a b : ℕ)
        → a < b
        → let scores = score_pairs float (count_users games []) (pair_users games []) [] in
          (lookup (a, b) scores ≡ set_score float games a b)
          × (lookup (b, a) scores ≡ set_score float games b a)
    lookup_both_ways a b lt =
        let both =
          lookup-score_pairs float (count_users games []) a b (pair_users games []) [] lt
            (pair_users-IsCount games [] distinct tt) in
        let entry = lookup-pair_users a b lt in
        let result = written-set_score a b lt in
        (rw both.0 (rw entry result), rw both.1 (rw entry (result ∙ set_score_comm a b)))

    pub lookup-set_score :
        (a b : ℕ)
        → let scores = score_pairs float (count_users games []) (pair_users games []) [] in
          lookup (a, b) scores ≡ set_score float games a b
    lookup-set_score a b = elim (lt_cases a b) [
      | inl lt ↦ (lookup_both_ways a b lt).0
      | inr (inl gt) ↦ (lookup_both_ways b a gt).1
      | inr (inr e) ↦ rw e (
          lookup-score_pairs_same float (count_users games []) b (pair_users games []) []
            (pair_users-IsCount games [] distinct tt)
          ∙ ground arith)
    ]
