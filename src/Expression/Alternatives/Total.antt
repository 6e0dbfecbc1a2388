-- ===== src/Expression/Alternatives/Total.antt =====
-- The loops of `collectAlternativesFromHere` and `parseAlternativeText` end.
use cucumber_cpp.Base.{
  ℕ, zero, suc, ◌+◌, ◌≤◌, ◌<◌, ◌≡◌, refl, ◌∙◌, inl, inr, [], ◌∷◌, ◌++◌, Option, none, some, arith,
  length, ltb, lt→ltb, ltb→lt, le→ltb, ◌&&◌, ◌||◌, Bool, true, false, if◌then◌else◌, Bool-cases,
  ◌==◌, Option-cases, Text, char_at, find_from, find_from_bound,
}
use cucumber_cpp.Expression.Error.{ok, read_at_inside, Settles, returns, raises, >>=-Settles}
use cucumber_cpp.Expression.Alternatives.Words.{backtrack_outer}
use cucumber_cpp.Expression.Alternatives.{
  Forward, is_boundary, backtrack_end, backtrack, starts_slash, forward_read, alternative_read,
  flush, copy_group, forward_round, forward_from, collect_start, collect_alternatives_from_here,
  optional_round, alternative_round, alternative_from, parse_alternative_text,
}

copy_group-pos :
    (e : Text) (f : Forward) (o : Option ℕ)
    → find_from b')' e f.pos ≡ o
    → f.pos < (copy_group e f o).pos
unfolding copy_group
copy_group-pos e f none h = omega arith
copy_group-pos e f (some q) h = let b = find_from_bound b')' e f.pos h in omega arith

forward_read-pos :
    (e : Text) (f : Forward) (c : ℕ) (slash : Bool) {g : Forward}
    → forward_read e f c slash ≡ some g
    → f.pos < g.pos
unfolding forward_read
forward_read-pos e f c slash h = ground (arith, copy_group-pos e f (find_from b')' e f.pos) refl)

-- The next character is read only inside the text.
starts_slash-read : (e : Text) (f : Forward) (c : ℕ) → (b : Bool) × (starts_slash e f c ≡ ok b)
unfolding starts_slash
starts_slash-read e f c = elim (Bool-cases (c == b'\\' && ltb (f.pos + 1) (length e))) [
  | inl h ↦
      let inside : f.pos + 1 < length e = ground (arith, h) in
      (
        char_at e (f.pos + 1) == b'/',
        rw (h, read_at_inside e (f.pos + 1) inside, starts_slash) refl,
      )
  | inr h ↦ (false, rw (h, starts_slash) refl)
]

-- Inside the text, a round reads, and one that does not break goes forward.
forward_round-pos :
    (e : Text) (f : Forward)
    → f.pos < length e
    → (o : Option Forward) × (forward_round e f ≡ ok o)
      × ((g : Forward) → o ≡ some g → f.pos < g.pos)
unfolding forward_round
forward_round-pos e f inside =
    let c = char_at e f.pos in
    let (slash, found) = starts_slash-read e f c in
    (
      forward_read e f c slash,
      rw (read_at_inside e f.pos inside, found, forward_round) refl,
      λ g. forward_read-pos e f c slash {g = g},
    )

forward_from-total :
    (fuel : ℕ) (e : Text) (f : Forward)
    → length e ≤ f.pos + fuel
    → (g : Forward) × (forward_from fuel e f ≡ ok g) × (f.pos ≤ g.pos)
unfolding forward_from
forward_from-total zero e f h = (f, rw (le→ltb f.pos (length e) (omega arith)), omega arith)
forward_from-total (suc fuel) e f h = elim (Bool-cases (ltb f.pos (length e))) [
  | inr out ↦ (f, rw (out, forward_from), omega arith)
  | inl inside ↦
      let (o, round, forward) = forward_round-pos e f (ltb→lt f.pos (length e) inside) in
      elim (Option-cases o) [
        | inl stop ↦ (f, rw (inside, round, forward_from) (rw stop refl), omega arith)
        | inr (g, next) ↦
            let p = forward g next in
            let (r, done, later) = forward_from-total fuel e g (omega arith) in
            (r, rw (inside, round, forward_from) (rw next done), omega arith)
      ]
]

flush-pos : (f : Forward) → (flush f).pos ≡ f.pos
unfolding flush
flush-pos f = ground arith

forward_round-slash :
    (e : Text) (f : Forward)
    → char_at e f.pos ≡ b'/'
    → f.pos < length e
    → (g : Forward) × (forward_round e f ≡ ok (some g)) × (g.pos ≡ f.pos + 1)
unfolding forward_round starts_slash forward_read
forward_round-slash e f h inside = (
  record (flush f) { pos = f.pos + 1 },
  rw (read_at_inside e f.pos inside, h, forward_round) refl,
  refl,
)

forward_from-slash :
    (e : Text) (f : Forward)
    → char_at e f.pos ≡ b'/'
    → f.pos < length e
    → (g : Forward) × (forward_from (length e) e f ≡ ok g) × (f.pos < g.pos)
unfolding forward_from
forward_from-slash e f h inside = step (length e) refl
  where
    step : (n : ℕ) → length e ≡ n → (g : Forward) × (forward_from n e f ≡ ok g) × (f.pos < g.pos)
    step zero z = absurd (omega arith)
    step (suc n) z =
        let (g, next, moved) = forward_round-slash e f h inside in
        let (r, done, later) = forward_from-total n e g (omega arith) in
        (r, rw (lt→ltb f.pos (length e) inside, next, forward_from) done, omega arith)

-- Inside the text, the backtracking loop reads and ends.
abbrev end_text : Text → Text → Text
end_text e current =
    let c = char_at e 0 in if is_boundary c || c == b'(' then current else c ∷ current

backtrack_end-total :
    (e current : Text) → 0 < length e → backtrack_end e current ≡ ok (end_text e current)
unfolding backtrack_end
backtrack_end-total e current h = rw (read_at_inside e 0 h) refl

backtrack-total :
    (e : Text) (i depth : ℕ) (current : Text)
    → i < length e
    → (t : Text) × (backtrack e i depth current ≡ ok t)
unfolding backtrack
backtrack-total e zero zero current h = (end_text e current, backtrack_end-total e current h)
backtrack-total e zero (suc depth) current h =
    (end_text e (char_at e 0 ∷ current), rw (read_at_inside e 0 h, backtrack) refl)
backtrack-total e (suc i) zero current h =
    let c = char_at e (suc i) in
    elim (Bool-cases (is_boundary c || c == b'(')) [
      | inl stop ↦ (current, backtrack_outer e i c current true (read_at_inside e (suc i) h) stop)
      | inr more ↦
          let (t, done) =
            backtrack-total e i (if c == b')' then 1 else 0) (c ∷ current) (omega arith) in
          (t, backtrack_outer e i c current false (read_at_inside e (suc i) h) more ∙ done)
    ]
backtrack-total e (suc i) (suc depth) current h =
    let c = char_at e (suc i) in
    let (t, done) =
      backtrack-total e i
        (if c == b')' then suc (suc depth) else if c == b'(' then depth else suc depth)
        (c ∷ current) (omega arith) in
    (t, rw (read_at_inside e (suc i) h, backtrack) done)

collect_start-pos :
    (e : Text) (i : ℕ) → i < length e → (f : Forward) × (collect_start e i ≡ ok f) × (f.pos ≡ suc i)
unfolding collect_start
collect_start-pos e i h =
    let (t, done) = backtrack-total e i 0 [] h in
    let f : Forward = record { pos = i + 1; current = t; alternatives = [] } in
    (flush f, rw (done, collect_start) refl, omega (arith, flush-pos f))

-- Called at a slash, the collection ends, behind that slash.
pub collect_alternatives_from_here-total :
    (e : Text) (before : ℕ)
    → char_at e (suc before) ≡ b'/'
    → suc before < length e
    → (g : Forward) × (collect_alternatives_from_here e before ≡ ok g) × (suc before < g.pos)
unfolding collect_alternatives_from_here
collect_alternatives_from_here-total e before h inside =
    let (start, begun, p) = collect_start-pos e before (omega arith) in
    let (g, done, moved) = forward_from-slash e start (rw p h) (omega arith) in
    (flush g, rw (begun, collect_alternatives_from_here) (rw done refl), omega (arith, flush-pos g))

alternative_read-pos : (s : Text) (i c : ℕ) {r : ℕ × Text} → alternative_read s i c ≡ ok r → i < r.0
unfolding alternative_read
alternative_read-pos s i c h = elim (Option-cases (find_from b')' s i)) [
  | inl e ↦ ground arith
  | inr (q, e) ↦ let b = find_from_bound b')' s i e in ground arith
]

optional_round-Settles : (i : ℕ) (content : Text) → Settles (optional_round i content)
unfolding optional_round
optional_round-Settles i [] = raises _
optional_round-Settles i (c ∷ s) = returns _

alternative_read-Settles : (s : Text) (i c : ℕ) → Settles (alternative_read s i c)
unfolding alternative_read
alternative_read-Settles s i c = elim (Bool-cases (c == b'(')) [
  | inr plain ↦ rw (plain, alternative_read) (returns _)
  | inl paren ↦ elim (Option-cases (find_from b')' s i)) [
    | inl n ↦ rw (paren, n, alternative_read) (returns _)
    | inr (q, n) ↦ rw (paren, n, alternative_read) (optional_round-Settles _ _)
  ]
]

-- Inside the text, a round reads one character.
alternative_round-read :
    (s : Text) (i : ℕ) → i < length s → alternative_round s i ≡ alternative_read s i (char_at s i)
unfolding alternative_round
alternative_round-read s i inside = rw (read_at_inside s i inside, alternative_round) refl

alternative_from-Settles :
    (fuel : ℕ) (s : Text) (i : ℕ) (result : Text)
    → length s ≤ i + fuel
    → Settles (alternative_from fuel s i result)
unfolding alternative_from
alternative_from-Settles zero s i result h = rw (le→ltb i (length s) (omega arith)) (returns result)
alternative_from-Settles (suc fuel) s i result h = elim (Bool-cases (ltb i (length s))) [
  | inr out ↦ rw (out, alternative_from) (returns result)
  | inl inside ↦
      let c = char_at s i in
      rw (inside, alternative_round-read s i (ltb→lt i (length s) inside), alternative_from)
        (>>=-Settles (alternative_read s i c) _ (alternative_read-Settles s i c) λ r round.
          alternative_from-Settles fuel s r.0 (result ++ r.1)
            (omega (arith, alternative_read-pos s i c round)))
]

-- `parseAlternativeText` ends in a value or an exception.
pub parse_alternative_text-Settles : (s : Text) → Settles (parse_alternative_text s)
unfolding parse_alternative_text
parse_alternative_text-Settles s = alternative_from-Settles (length s) s 0 [] (omega arith)
