-- ===== src/Expression/Parser/Rounds.antt =====
-- One round of `parse`: it goes forward and appends, and it ends unless a slash stands in front.
use cucumber_cpp.Base.{
  ℕ, zero, suc, ◌+◌, ◌-◌, ◌<◌, ◌≡◌, refl, ◌≢◌, inl, inr, Bool, true, false, List, [], ◌∷◌, ◌++◌,
  arith, length, ltb, ltb→lt, ◌==◌, ◌&&◌, ◌||◌, if_cases, ==_iff, Bool-cases, Text, codes, char_at,
  length-append,
}
use cucumber_cpp.Expression.Error.{
  Result, ok, read_at_inside, >>=-eq-ok, Settles, returns, >>=-Settles,
}
use cucumber_cpp.Expression.Types.{TypeMap}
use cucumber_cpp.Expression.Alternatives.{
  Forward, collect_alternatives_from_here, parse_alternative_text,
}
use cucumber_cpp.Expression.Alternatives.Total.{
  collect_alternatives_from_here-total, parse_alternative_text-Settles,
}
use cucumber_cpp.Expression.Parser.{
  Progress, is_escapable, parse_escaping, starts_escape, parse_open_brace, parse_open_parenthesis,
  back, find_word_end, join_alternatives, drop_last_word, alternatives_group, collect_before,
  parse_alternatives, parse_round,
}
use cucumber_cpp.Expression.Parser.Groups.{
  Advances, parse_open_brace-Advances, parse_open_brace-Settles, parse_open_parenthesis-Advances,
  parse_open_parenthesis-Settles, regular-Advances, escaping-Advances,
}

back-total : (r : Text) → 0 < length r → (c : ℕ) × (back r ≡ ok c)
unfolding back
back-total [] h = absurd (omega arith)
back-total (c ∷ []) h = (c, refl)
back-total (c ∷ d ∷ s) h = back-total (d ∷ s) (omega arith)

pub find_word_end-total : (w : ℕ) (r : Text) → 0 < length r → (n : ℕ) × (find_word_end w r ≡ ok n)
unfolding find_word_end
find_word_end-total zero r h = (0, refl)
find_word_end-total (suc w) r h =
    let (c, last) = back-total r h in
    elim (Bool-cases (c == b' ' || c == b')')) [
      | inl stop ↦ (suc w, rw (last, find_word_end) (rw stop))
      | inr more ↦
          let (n, done) = find_word_end-total w r h in (n, rw (last, find_word_end) (rw more done))
    ]

join_alternatives-Settles : (xs : List Text) → Settles (join_alternatives xs)
unfolding join_alternatives
join_alternatives-Settles [] = returns []
join_alternatives-Settles (a ∷ []) = parse_alternative_text-Settles a
join_alternatives-Settles (a ∷ b ∷ more) =
    >>=-Settles (parse_alternative_text a) _ (parse_alternative_text-Settles a) λ first _.
      >>=-Settles (join_alternatives (b ∷ more)) _ (join_alternatives-Settles (b ∷ more))
        λ others _. returns _

alternatives_group-Settles : (p : Progress) (f : Forward) → Settles (alternatives_group p f)
unfolding alternatives_group
alternatives_group-Settles p f = elim (Bool-cases (ltb 1 (length f.alternatives))) [
  | inl many ↦
      rw (many, alternatives_group)
        (>>=-Settles (join_alternatives f.alternatives) _ (join_alternatives-Settles f.alternatives)
          λ body _. returns _)
  | inr few ↦ rw (few, alternatives_group) (returns _)
]

alternatives_group-Advances :
    (p : Progress) (f : Forward) {q : Progress}
    → p.pos < f.pos
    → 0 < length p.result
    → alternatives_group p f ≡ ok q
    → Advances p q
unfolding alternatives_group
alternatives_group-Advances p f moved built h = elim (Bool-cases (ltb 1 (length f.alternatives))) [
  | inl many ↦
      let (body, joined, e) =
        >>=-eq-ok (join_alternatives f.alternatives) _ (rw (many, alternatives_group) at h) in
      ground (arith, length-append (drop_last_word p.result) (codes "(?:" ++ (body ++ codes ")")))
  | inr few ↦ ground arith
]

-- At a slash that is not in front, the words are collected.
parse_alternatives-collects :
    (e : Text) (p : Progress) (before : ℕ)
    → p.pos ≡ suc before
    → char_at e p.pos ≡ b'/'
    → p.pos < length e
    → 0 < length p.result
    → (f : Forward) × (parse_alternatives e p ≡ alternatives_group p f) × (p.pos < f.pos)
unfolding parse_alternatives collect_before
parse_alternatives-collects e p before at_pos slash inside built =
    let (n, found) = find_word_end-total p.pos p.result built in
    let (f, collected, moved) =
      collect_alternatives_from_here-total e before (rw at_pos at slash) (omega arith) in
    (f, go n found f collected, omega arith)
  where
    go :
        (n : ℕ)
        → find_word_end p.pos p.result ≡ ok n
        → (f : Forward) → collect_alternatives_from_here e before ≡ ok f
        → parse_alternatives e p ≡ alternatives_group p f
    go n found f collected =
        rw (found, parse_alternatives) (rw (at_pos, collect_before) (rw collected))

-- A round that ends in a value that goes forward, or in an exception.
pub record RoundEnds (p : Progress) (m : Result Progress) : Type 0 where
  pub settles : Settles m
  pub advances : (q : Progress) → m ≡ ok q → Advances p q

RoundEnds-ok : (p q : Progress) → Advances p q → RoundEnds p (ok q)
RoundEnds-ok p q a = record { settles = returns q; advances = λ r e. ground arith }

parse_open_brace-RoundEnds :
    (types : TypeMap) (e : Text) (p : Progress) → RoundEnds p (parse_open_brace types e p)
parse_open_brace-RoundEnds types e p = record {
  settles = parse_open_brace-Settles types e p;
  advances = λ q. parse_open_brace-Advances types e p {q = q};
}

parse_open_parenthesis-RoundEnds :
    (e : Text) (p : Progress) → RoundEnds p (parse_open_parenthesis e p)
parse_open_parenthesis-RoundEnds e p = record {
  settles = parse_open_parenthesis-Settles e p;
  advances = λ q. parse_open_parenthesis-Advances e p {q = q};
}

parse_alternatives-RoundEnds :
    (e : Text) (p : Progress)
    → 0 < p.pos
    → char_at e p.pos ≡ b'/'
    → p.pos < length e
    → 0 < length p.result
    → RoundEnds p (parse_alternatives e p)
parse_alternatives-RoundEnds e p later slash inside built =
    let (f, same, moved) =
      parse_alternatives-collects e p (p.pos - 1) (omega arith) slash inside built in
    record {
      settles = rw same (alternatives_group-Settles p f);
      advances = λ q h. alternatives_group-Advances p f moved built (rw same at h);
    }

-- The positions that the loop meets: the start, or a later one with a regex begun.
abbrev pub Reached : Progress → Type 0
Reached p = 0 < p.pos → 0 < length p.result

-- No slash stands in front.
abbrev pub HasNoFrontSlash : Text → Type 0
HasNoFrontSlash e = char_at e 0 ≢ b'/'

ltb-zero : (n : ℕ) → ltb 0 n ≡ false → n ≡ 0
ltb-zero n h = ground arith

-- The next character is read only inside the expression.
starts_escape-read :
    (e : Text) (p : Progress) (c : ℕ)
    → (b : Bool) × (starts_escape e p c ≡ ok b) × (b ≡ true → p.pos + 1 < length e)
unfolding starts_escape
starts_escape-read e p c = elim (Bool-cases (c == b'\\' && ltb (p.pos + 1) (length e))) [
  | inl h ↦
      let inside : p.pos + 1 < length e = ground (arith, h) in
      (
        is_escapable (char_at e (p.pos + 1)),
        rw (h, read_at_inside e (p.pos + 1) inside, starts_escape) refl,
        λ _. inside,
      )
  | inr h ↦ (false, rw (h, starts_escape) refl, λ e'. absurd cc)
]

parse_escaping-RoundEnds :
    (e : Text) (p : Progress) → p.pos + 1 < length e → RoundEnds p (parse_escaping e p)
unfolding parse_escaping
parse_escaping-RoundEnds e p inside =
    rw (read_at_inside e (p.pos + 1) inside, parse_escaping)
      (RoundEnds-ok p _ (escaping-Advances p (char_at e (p.pos + 1))))

pub parse_round-RoundEnds :
    (types : TypeMap) (e : Text) (p : Progress)
    → Reached p
    → p.pos < length e
    → HasNoFrontSlash e
    → RoundEnds p (parse_round types e p)
unfolding parse_round
parse_round-RoundEnds types e p reached inside front =
    let (escapes, found, next) = starts_escape-read e p c in
    rw (read_at_inside e p.pos inside, found, parse_round)
      (if_cases (RoundEnds p) escapes (λ h. parse_escaping-RoundEnds e p (next h))
        λ _.
          if_cases (RoundEnds p) (c == b'{') (λ _. parse_open_brace-RoundEnds types e p)
            λ _.
              if_cases (RoundEnds p) (c == b'(') (λ _. parse_open_parenthesis-RoundEnds e p)
                λ _.
                  if_cases (RoundEnds p) (c == b'/') (λ h. slash ((==_iff c b'/').0 h))
                    λ _. RoundEnds-ok p _ (regular-Advances p c))
  where
    c : ℕ
    c = char_at e p.pos

    slash : c ≡ b'/' → RoundEnds p (parse_alternatives e p)
    slash h = elim (Bool-cases (ltb 0 p.pos)) [
      | inl later ↦
          parse_alternatives-RoundEnds e p (ltb→lt 0 p.pos later) h inside
            (reached (ltb→lt 0 p.pos later))
      | inr start ↦ absurd (front (rw (ltb-zero p.pos start) at h))
    ]
