-- ===== src/Expression/Parser/Groups.antt =====
-- The rounds of `parse` at brackets and backslashes: they go forward, and they end.
use cucumber_cpp.Base.{
  lookup, ℕ, ◌+◌, ◌-◌, ◌≤◌, ◌<◌, ◌≡◌, inl, inr, Option, none, some, [], ◌∷◌, ◌++◌, arith, length,
  Option-cases, Text, codes, find_from, find_from_bound, length-append, substr,
}
use cucumber_cpp.Expression.Error.{ok, Settles, returns, raises}
use cucumber_cpp.Expression.Types.{TypeMap}
use cucumber_cpp.Expression.Escape.{escape_char, escape_regex_chars}
use cucumber_cpp.Expression.Parser.{
  Progress, escaped_text, parameter_group, optional_group, parse_open_brace, parse_open_parenthesis,
}

-- What a round that succeeds gives: it goes forward, and the regex is no longer empty.
pub record Advances (p q : Progress) : Type 0 where
  pub forward : p.pos < q.pos
  pub built : 0 < length q.result

parameter_group-Advances :
    (p : Progress) (i : ℕ) (t : Text) (o : Option Text) {q : Progress}
    → p.pos ≤ i
    → parameter_group p i t o ≡ ok q
    → Advances p q
unfolding parameter_group
parameter_group-Advances p i t none b h = cc
parameter_group-Advances p i t (some v) b h =
    ground (arith, length-append p.result (b'(' ∷ (v ++ codes ")")))

pub parse_open_brace-Advances :
    (types : TypeMap) (e : Text) (p : Progress) {q : Progress}
    → parse_open_brace types e p ≡ ok q
    → Advances p q
unfolding parse_open_brace
parse_open_brace-Advances types e p h = elim (Option-cases (find_from b'}' e p.pos)) [
  | inl n ↦ cc (rw (n, parse_open_brace) at h)
  | inr (i, n) ↦
      let b = find_from_bound b'}' e p.pos n in
      let param_type = substr e (p.pos + 1) (i - p.pos - 1) in
      parameter_group-Advances p i param_type (lookup param_type types) b.0
        (rw (n, parse_open_brace) at h)
]

parameter_group-Settles :
    (p : Progress) (i : ℕ) (t : Text) (o : Option Text) → Settles (parameter_group p i t o)
unfolding parameter_group
parameter_group-Settles p i t none = raises _
parameter_group-Settles p i t (some v) = returns _

pub parse_open_brace-Settles :
    (types : TypeMap) (e : Text) (p : Progress) → Settles (parse_open_brace types e p)
unfolding parse_open_brace
parse_open_brace-Settles types e p = elim (Option-cases (find_from b'}' e p.pos)) [
  | inl n ↦ rw (n, parse_open_brace) (raises _)
  | inr (i, n) ↦ rw (n, parse_open_brace) (parameter_group-Settles p _ _ _)
]

pub parse_open_parenthesis-Advances :
    (e : Text) (p : Progress) {q : Progress} → parse_open_parenthesis e p ≡ ok q → Advances p q
unfolding parse_open_parenthesis
parse_open_parenthesis-Advances e p h = elim (Option-cases (find_from b')' e p.pos)) [
  | inl n ↦ cc (rw (n, parse_open_parenthesis) at h)
  | inr (i, n) ↦
      let b = find_from_bound b')' e p.pos n in
      let content = substr e (p.pos + 1) (i - p.pos - 1) in
      ground
        (arith, length-append p.result (codes "(?:" ++ (escape_regex_chars content ++ codes ")?")))
]

optional_group-Settles : (p : Progress) (i : ℕ) (t : Text) → Settles (optional_group p i t)
unfolding optional_group
optional_group-Settles p i [] = raises _
optional_group-Settles p i (c ∷ t) = returns _

pub parse_open_parenthesis-Settles :
    (e : Text) (p : Progress) → Settles (parse_open_parenthesis e p)
unfolding parse_open_parenthesis
parse_open_parenthesis-Settles e p = elim (Option-cases (find_from b')' e p.pos)) [
  | inl n ↦ rw (n, parse_open_parenthesis) (raises _)
  | inr (i, n) ↦ rw (n, parse_open_parenthesis) (optional_group-Settles p _ _)
]

pub regular-Advances :
    (p : Progress) (c : ℕ)
    → Advances p (record { pos = p.pos + 1; result = p.result ++ escape_char c })
unfolding escape_char
regular-Advances p c =
    ground (arith, length-append p.result (b'\\' ∷ c ∷ []), length-append p.result (c ∷ []))

pub escaping-Advances :
    (p : Progress) (next : ℕ)
    → Advances p (record p { pos = p.pos + 2; result = p.result ++ escaped_text next })
escaping-Advances p next =
    ground (arith, length-append p.result (b'\\' ∷ next ∷ []), length-append p.result (next ∷ []))
