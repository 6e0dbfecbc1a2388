-- ===== src/Expression/Alternatives/Collect.antt =====
-- Alternatives that are words: what the loop of `collectAlternativesFromHere` collects.
use cucumber_cpp.Base.{
  zero, suc, ◌+◌, ◌≤◌, ◌≡◌, refl, List, [], ◌∷◌, ◌++◌, append_assoc, arith, length, length-append,
  drop, Text, All,
}
use cucumber_cpp.Expression.Alternatives.Words.{
  Word, letters, IsWord, EndsWords, StartsWords, backtrack-letters,
}
use cucumber_cpp.Expression.Error.{ok}
use cucumber_cpp.Expression.Alternatives.{
  backtrack, Forward, flush, forward_from, collect_start, collect_alternatives_from_here,
}
use cucumber_cpp.Expression.Alternatives.Loop.{
  slashed, all_letters, Collected, forward_collects, Collected-flush,
}

drop_others : (u : Text) → drop (length u) u ≡ []
drop_others [] = refl
drop_others (c ∷ u) = drop_others u

collect_start_lem :
    (before post : Text) (w : Word)
    → StartsWords before
    → IsWord w
    → collect_start (before ++ (letters w ++ post)) (length before + length w.others)
      ≡ ok (record {
        pos = length before + length w.others + 1;
        current = [];
        alternatives = letters w ∷ [];
      })
unfolding collect_start flush
collect_start_lem before post w start a = rw word refl
  where
    dropped : drop (suc (length w.others)) (letters w) ≡ []
    dropped = drop_others w.others

    word :
        backtrack (before ++ (letters w ++ post)) (length before + length w.others) zero []
        ≡ ok (letters w)
    word =
        rw dropped at
          (backtrack-letters before (letters w) post (length w.others) start a (omega arith))

-- Behind the first word, the alternatives are that word and the ones behind the slashes, and the
-- position is the one behind them.
pub collect_alternatives-slashed :
    {before post : Text}
    → StartsWords before
    → EndsWords post
    → (w : Word) (ws : List Word) → IsWord w
    → All IsWord ws
    → collect_alternatives_from_here
        (before ++ (letters w ++ (slashed ws ++ post)))
        (length before + length w.others)
      ≡ ok (record {
        pos = length before + length (letters w) + length (slashed ws);
        current = [];
        alternatives = letters w ∷ all_letters ws;
      })
unfolding collect_alternatives_from_here
collect_alternatives-slashed {before} {post} start stop w ws a b =
    let e : Text = before ++ (letters w ++ (slashed ws ++ post)) in
    let f : Forward = record {
      pos = length before + length w.others + 1;
      current = [];
      alternatives = letters w ∷ [];
    } in
    let fuel : length (slashed ws) + length post ≤ length e = omega (
      arith,
      length-append before (letters w ++ (slashed ws ++ post)),
      length-append (letters w) (slashed ws ++ post),
      length-append (slashed ws) post,
    ) in
    let c : Collected (length before + length (letters w) + length (slashed ws))
        (letters w ∷ all_letters ws) (forward_from (length e) e f) =
      rw (append_assoc before (letters w) (slashed ws ++ post)) at (
        forward_collects stop [] ws (before ++ letters w) f (length e)
          (length before + length (letters w) + length (slashed ws)) (letters w ∷ all_letters ws) tt
          b (omega (arith, fuel)) (omega (arith, length-append before (letters w)))
          (omega (arith, length-append before (letters w))) refl) in
    rw (collect_start_lem before (slashed ws ++ post) w start a) (Collected-flush c)
