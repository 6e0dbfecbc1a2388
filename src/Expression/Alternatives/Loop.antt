-- ===== src/Expression/Alternatives/Loop.antt =====
-- The loop of `collectAlternativesFromHere` on words: what it collects, and where it ends.
use cucumber_cpp.Base.{
  ℕ, zero, suc, ◌+◌, ◌≤◌, ◌<◌, ◌≡◌, refl, sym, ap, ◌∙◌, true, false, ◌==◌, List, [], ◌∷◌, ◌++◌,
  append-nil, append_assoc, arith, lt→ltb, le→ltb, length, length-append, Text, All, some, none,
}
use cucumber_cpp.Expression.Alternatives.Words.{
  is_letter, AllLetters, Word, letters, IsWord, EndsWords, at_end, at_space,
}
use cucumber_cpp.Expression.Error.{Result, ok, ◌>>=◌, read_at-append}
use cucumber_cpp.Expression.Alternatives.{
  is_boundary, Forward, flush, starts_slash, forward_read, forward_round, forward_from,
}

-- The words behind a slash, each with the slash before it.
abbrev pub slashed : List Word → Text
slashed [] = []
slashed (w ∷ ws) = b'/' ∷ (letters w ++ slashed ws)

abbrev pub all_letters : List Word → List Text
all_letters [] = []
all_letters (w ∷ ws) = letters w ∷ all_letters ws

forward_letter :
    (pre post : Text) (c : ℕ) (f : Forward)
    → is_letter c ≡ true
    → f.pos ≡ length pre
    → forward_round (pre ++ c ∷ post) f
      ≡ ok (some (record f { pos = f.pos + 1; current = f.current ++ c ∷ [] }))
unfolding forward_round starts_slash forward_read is_boundary
forward_letter pre post c f letter p =
    let no_backslash : (c == b'\\') ≡ false = ground (arith, letter) in
    rw (p, read_at-append, forward_round) (rw no_backslash (ground (arith, letter)))

forward_slash :
    (pre post : Text) (f : Forward)
    → f.pos ≡ length pre
    → forward_round (pre ++ b'/' ∷ post) f ≡ ok (some (record (flush f) { pos = f.pos + 1 }))
unfolding forward_round starts_slash forward_read is_boundary
forward_slash pre post f p = rw (p, read_at-append, forward_round) refl

forward_space :
    (pre post : Text) (f : Forward)
    → f.pos ≡ length pre
    → forward_round (pre ++ b' ' ∷ post) f ≡ ok none
unfolding forward_round starts_slash forward_read is_boundary
forward_space pre post f p = rw (p, read_at-append, forward_round) refl

forward_step :
    (fuel : ℕ) (e : Text) (f g : Forward)
    → f.pos < length e
    → forward_round e f ≡ ok (some g)
    → forward_from (suc fuel) e f ≡ forward_from fuel e g
unfolding forward_from
forward_step fuel e f g inside h = rw (lt→ltb f.pos (length e) inside, h, forward_from) refl

-- The alternatives once the current word is among them.
abbrev pub flushed : Forward → List Text
flushed f = (flush f).alternatives

-- The loop ends at a place, with some alternatives.
pub record Collected (n : ℕ) (alternatives : List Text) (r : Result Forward) : Type 0 where
  pub last : Forward
  pub ended : r ≡ ok last
  pub place : last.pos ≡ n
  pub words : flushed last ≡ alternatives

flushed-letters :
    (f : Forward) (v : Word) (n : ℕ)
    → flushed (record (flush f) { pos = n; current = (flush f).current ++ letters v })
      ≡ flushed f ++ letters v ∷ []
unfolding flush
flushed-letters f v n =
    elim f.current
      as (λ x.
        let f' : Forward = record f { current = x } in
        flushed (record (flush f') { pos = n; current = (flush f').current ++ letters v })
        ≡ flushed f' ++ letters v ∷ []) [ [] ↦ refl | c ∷ s ↦ refl ]

-- The position does not matter to it.
flushed-pos :
    (m n : ℕ) (current : Text) (alternatives : List Text)
    → flushed (record { pos = m; current = current; alternatives = alternatives })
      ≡ flushed (record { pos = n; current = current; alternatives = alternatives })
unfolding flush
flushed-pos m n [] alternatives = refl
flushed-pos m n (c ∷ current) alternatives = refl

forward_from_end :
    (fuel : ℕ) (e : Text) (f : Forward) → length e ≤ f.pos → forward_from fuel e f ≡ ok f
unfolding forward_from
forward_from_end zero e f h = rw (le→ltb f.pos (length e) h) refl
forward_from_end (suc fuel) e f h = rw (le→ltb f.pos (length e) h, forward_from) refl

forward_from_break :
    (fuel : ℕ) (e : Text) (f : Forward)
    → f.pos < length e
    → forward_round e f ≡ ok none
    → forward_from (suc fuel) e f ≡ ok f
unfolding forward_from
forward_from_break fuel e f inside h = rw (lt→ltb f.pos (length e) inside, h, forward_from) refl

forward_stops :
    {post : Text}
    → EndsWords post
    → (pre : Text) (f : Forward) (fuel : ℕ) (n : ℕ) (alternatives : List Text) → length post ≤ fuel
    → f.pos ≡ length pre
    → n ≡ length pre
    → flushed f ≡ alternatives
    → Collected n alternatives (forward_from fuel (pre ++ post) f)
forward_stops at_end pre f fuel n alternatives l p q h = record {
  last = f;
  ended = forward_from_end fuel (pre ++ []) f (omega (arith, length-append pre [], p));
  place = p ∙ sym q;
  words = h;
}
forward_stops (at_space s) pre f zero n alternatives l p q h = absurd (omega arith)
forward_stops (at_space s) pre f (suc fuel) n alternatives l p q h = record {
  last = f;
  ended =
      forward_from_break fuel (pre ++ b' ' ∷ s) f (omega (arith, length-append pre (b' ' ∷ s), p))
        (forward_space pre s f p);
  place = p ∙ sym q;
  words = h;
}

-- The loop collects the rest of a word and the words behind slashes.
pub forward_collects :
    {post : Text}
    → EndsWords post
    → (u : Text) (ws : List Word) (pre : Text) (f : Forward) (fuel n : ℕ) (alternatives : List Text)
    → AllLetters u
    → All IsWord ws
    → length u + length (slashed ws) + length post ≤ fuel
    → f.pos ≡ length pre
    → n ≡ length pre + length u + length (slashed ws)
    → flushed (record f { current = f.current ++ u }) ++ all_letters ws ≡ alternatives
    → Collected n alternatives (forward_from fuel (pre ++ (u ++ (slashed ws ++ post))) f)
forward_collects stop [] [] pre f fuel n alternatives a b l p q h =
    forward_stops stop pre f fuel n alternatives (omega (arith, l)) p (omega (arith, q))
      (rw (append-nil f.current, append-nil (flushed f)) at h)
forward_collects {post} stop [] (w ∷ ws) pre f (suc fuel) n alternatives a b l p q h =
    let rest : Collected n alternatives (forward_from fuel ((pre ++ b'/' ∷ []) ++ tail) g) =
      forward_collects stop (letters w) ws (pre ++ b'/' ∷ []) g fuel n alternatives b.0 b.1
        (omega (arith, l, length-append (letters w) (slashed ws)))
        (omega (arith, p, length-append pre (b'/' ∷ [])))
        (omega (arith, q, length-append pre (b'/' ∷ []), length-append (letters w) (slashed ws)))
        words in
    rw (append_assoc (letters w) (slashed ws) post) (
      rw (forward_step fuel (pre ++ b'/' ∷ tail) f g inside (forward_slash pre tail f p))
        (rw (append_assoc pre (b'/' ∷ []) tail) at rest))
  where
    tail : Text
    tail = letters w ++ (slashed ws ++ post)

    g : Forward
    g = record (flush f) { pos = f.pos + 1 }

    inside : f.pos < length (pre ++ b'/' ∷ tail)
    inside = omega (arith, p, length-append pre (b'/' ∷ tail))

    words : flushed (record g { current = g.current ++ letters w }) ++ all_letters ws ≡ alternatives
    words =
        ap (◌++ all_letters ws) (flushed-letters f w (f.pos + 1))
        ∙ (append_assoc (flushed f) (letters w ∷ []) (all_letters ws)
            ∙ (rw (append-nil f.current) at h))
forward_collects {post} stop (c ∷ u) ws pre f (suc fuel) n alternatives a b l p q h =
    let rest : Collected n alternatives (forward_from fuel ((pre ++ c ∷ []) ++ tail) g) =
      forward_collects stop u ws (pre ++ c ∷ []) g fuel n alternatives a.1 b (omega (arith, l))
        (omega (arith, p, length-append pre (c ∷ [])))
        (omega (arith, q, length-append pre (c ∷ [])))
        (ap (◌++ all_letters ws)
            (flushed-pos (f.pos + 1) f.pos ((f.current ++ c ∷ []) ++ u) f.alternatives)
          ∙ (rw (← append_assoc f.current (c ∷ []) u) at h)) in
    rw (forward_step fuel (pre ++ c ∷ tail) f g inside (forward_letter pre tail c f a.0 p))
      (rw (append_assoc pre (c ∷ []) tail) at rest)
  where
    tail : Text
    tail = u ++ (slashed ws ++ post)

    g : Forward
    g = record f { pos = f.pos + 1; current = f.current ++ c ∷ [] }

    inside : f.pos < length (pre ++ c ∷ tail)
    inside = omega (arith, p, length-append pre (c ∷ tail))
forward_collects stop [] (w ∷ ws) pre f zero n alternatives a b l p q h = absurd (omega (arith, l))
forward_collects stop (c ∷ u) ws pre f zero n alternatives a b l p q h = absurd (omega (arith, l))

flush_lem : (f : Forward) → flush f ≡ record { pos = f.pos; current = []; alternatives = flushed f }
unfolding flush
flush_lem f =
    elim f.current
      as (λ x.
        let f' : Forward = record f { current = x } in
        flush f' ≡ record { pos = f.pos; current = []; alternatives = flushed f' }) [
          | [] ↦ refl
          | c ∷ s ↦ refl
        ]

-- What the collection makes of the end of the loop.
pub Collected-flush :
    {n : ℕ} {alternatives : List Text} {r : Result Forward}
    → Collected n alternatives r
    → (do f ← r; ok (flush f)) ≡ ok (record { pos = n; current = []; alternatives = alternatives })
Collected-flush c =
    rw c.ended (ap ok (flush_lem c.last))
    ∙ (λ i. ok (record { pos = c.place i; current = []; alternatives = c.words i }))
