-- ===== src/Cors/Origins.antt =====
-- Which origins the variable allows.
use host_container.Prelude.{
  ◌≡◌, refl, ap, ◌∙◌, Bool, false, ◌||◌, not, none, some, List, [], ◌∷◌, ◌++◌, if◌then◌else◌, ◌==◌,
  arith, All,
}
use host_container.World.{Word}
use host_container.Text.{text_eq}
use host_container.Cors.{
  comma, is_space, grow, split_comma, trim_left, trim_right, trim_space, keep_filled,
  parse_allowed_origins, holds, cors,
}

-- Whether a text has a comma or a space.
abbrev pub has_break : Word → Bool
has_break [] = false
has_break (c ∷ cs) = (c == comma || is_space c) || has_break cs

-- An origin as it is written into the variable.
pub record IsOrigin (w : Word) : Type 0 where
  pub filled : text_eq w [] ≡ false
  pub no_break : has_break w ≡ false

pub join_comma : List Word → Word
join_comma [] = []
join_comma (w ∷ []) = w
join_comma (w ∷ v ∷ ws) = w ++ comma ∷ join_comma (v ∷ ws)

split_last : (w : Word) → has_break w ≡ false → split_comma w ≡ w ∷ []
unfolding split_comma grow
split_last [] h = refl
split_last (c ∷ cs) h = ground (arith, split_last cs)

split_first :
    (w rest : Word) → has_break w ≡ false → split_comma (w ++ comma ∷ rest) ≡ w ∷ split_comma rest
unfolding split_comma grow
split_first [] rest h = refl
split_first (c ∷ cs) rest h = ground (arith, split_first cs rest)

trim_left_plain : (w : Word) → has_break w ≡ false → trim_left w ≡ w
unfolding trim_left
trim_left_plain [] h = refl
trim_left_plain (c ∷ cs) h = ground arith

trim_right_plain : (w : Word) → has_break w ≡ false → trim_right w ≡ w
unfolding trim_right
trim_right_plain [] h = refl
trim_right_plain (c ∷ cs) h = ground (arith, trim_right_plain cs)

trim_plain : (w : Word) → has_break w ≡ false → trim_space w ≡ w
unfolding trim_space
trim_plain w h = ap trim_right (trim_left_plain w h) ∙ trim_right_plain w h

split_joined :
    (w : Word) (ws : List Word) → All IsOrigin (w ∷ ws) → split_comma (join_comma (w ∷ ws)) ≡ w ∷ ws
unfolding join_comma
split_joined w [] a = split_last w a.0.no_break
split_joined w (v ∷ ws) a =
    split_first w (join_comma (v ∷ ws)) a.0.no_break
    ∙ ap (λ (vs : List Word). w ∷ vs) (split_joined v ws a.1)

origins_kept : (ws : List Word) → All IsOrigin ws → keep_filled ws ≡ ws
unfolding keep_filled
origins_kept [] a = refl
origins_kept (w ∷ ws) a = ground (arith, trim_plain w a.0.no_break, a.0.filled, origins_kept ws a.1)

-- Origins without commas and spaces, joined by commas, are read back as they were written.
parse-join_comma :
    (w : Word) (ws : List Word)
    → All IsOrigin (w ∷ ws)
    → parse_allowed_origins (join_comma (w ∷ ws)) ≡ w ∷ ws
unfolding parse_allowed_origins
parse-join_comma w ws a = ap keep_filled (split_joined w ws a) ∙ origins_kept (w ∷ ws) a

-- Where the variable lists origins without commas and spaces, separated by commas, a reply allows an
-- origin exactly if it is one of them, and the request goes on unless its method is OPTIONS.
pub cors-join_comma :
    (w : Word) (ws : List Word) (is_options : Bool) (origin : Word)
    → All IsOrigin (w ∷ ws)
    → text_eq origin [] ≡ false
    → cors (join_comma (w ∷ ws)) is_options origin ≡ record {
      passed_on = not is_options;
      allow_origin = if holds origin (w ∷ ws) then some origin else none;
    }
unfolding cors
cors-join_comma w ws is_options origin a h = rw (parse-join_comma w ws a, h) refl
