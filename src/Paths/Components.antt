-- ===== src/Paths/Components.antt =====
-- The components of a cleaned path: none is empty, `.` or `..`, and none holds a slash.
use mathlib.Core.List.{reverse, reverse-cons, append_assoc}
use host_container.Prelude.{
  ℕ, ◌≡◌, refl, sym, ap, ◌∙◌, Bool, true, false, ◌||◌, List, [], ◌∷◌, ◌++◌, arith, ◌==◌, All,
}
use host_container.Text.{text_eq, has_prefix}
use host_container.World.{FilePath}
use host_container.Paths.{
  Component, slash, dot, dot_dot, grow_first, split_slash, push, resolve, join_slash,
}

abbrev pub has_slash : Component → Bool
has_slash [] = false
has_slash (c ∷ cs) = c == slash || has_slash cs

abbrev NoSlash : Component → Type 0
NoSlash c = has_slash c ≡ false

pub record IsPlain (c : Component) : Type 0 where
  pub filled : text_eq c [] ≡ false
  pub not_dot : text_eq c dot ≡ false
  pub not_dot_dot : text_eq c dot_dot ≡ false
  pub no_slash : has_slash c ≡ false

grow_first-NoSlash :
    (c : ℕ) (cs : List Component)
    → (c == slash) ≡ false
    → All NoSlash cs
    → All NoSlash (grow_first c cs)
unfolding grow_first
grow_first-NoSlash c [] h a = (ground arith, tt)
grow_first-NoSlash c (x ∷ xs) h a = (ground arith, a.1)

pub split_slash-NoSlash : (p : FilePath) → All NoSlash (split_slash p)
unfolding split_slash
split_slash-NoSlash [] = (refl, tt)
split_slash-NoSlash (c ∷ cs) =
    ground (arith, split_slash-NoSlash cs, grow_first-NoSlash c (split_slash cs))

push-IsPlain :
    (c : Component) (stack : List Component)
    → has_slash c ≡ false
    → All IsPlain stack
    → All IsPlain (push true c stack)
unfolding push
push-IsPlain c [] h a = ground arith
push-IsPlain c (d ∷ stack) h a = ground arith

pub resolve-IsPlain :
    (cs stack : List Component)
    → All NoSlash cs
    → All IsPlain stack
    → All IsPlain (resolve true cs stack)
unfolding resolve
resolve-IsPlain [] stack h a = a
resolve-IsPlain (c ∷ cs) stack h a =
    resolve-IsPlain cs (push true c stack) h.1 (push-IsPlain c stack h.0 a)

All-append {ℓ κ} :
    {A : Type ℓ} (P : A → Type κ) (xs ys : List A) → All P xs → All P ys → All P (xs ++ ys)
All-append P [] ys h k = k
All-append P (x ∷ xs) ys h k = (h.0, All-append P xs ys h.1 k)

pub All-reverse {ℓ κ} : {A : Type ℓ} (P : A → Type κ) (xs : List A) → All P xs → All P (reverse xs)
All-reverse P [] h = tt
All-reverse P (x ∷ xs) h =
    rw (reverse-cons x xs) (All-append P (reverse xs) (x ∷ []) (All-reverse P xs h.1) (h.0, tt))

-- A run of plain components is pushed as it stands.
pub resolve_plain :
    (cs stack : List Component) → All IsPlain cs → resolve true cs stack ≡ reverse cs ++ stack
unfolding resolve push
resolve_plain [] stack a = refl
resolve_plain (c ∷ cs) stack a =
    let kept : push true c stack ≡ c ∷ stack = ground arith in
    rw (kept, resolve)
      (resolve_plain cs (c ∷ stack) a.1
        ∙ sym (rw (reverse-cons c cs) (append_assoc (reverse cs) (c ∷ []) stack)))

pub split_slash-append :
    (c : Component) (p : FilePath)
    → has_slash c ≡ false
    → split_slash (c ++ slash ∷ p) ≡ c ∷ split_slash p
unfolding split_slash grow_first
split_slash-append [] p h = refl
split_slash-append (x ∷ c) p h = ground (arith, split_slash-append c p)

split_slash-single : (c : Component) → has_slash c ≡ false → split_slash c ≡ c ∷ []
unfolding split_slash grow_first
split_slash-single [] h = refl
split_slash-single (x ∷ c) h = ground (arith, split_slash-single c)

-- `split_slash` undoes `join_slash`.
pub split_slash-join_slash :
    (c : Component) (cs : List Component)
    → All IsPlain (c ∷ cs)
    → split_slash (join_slash (c ∷ cs)) ≡ c ∷ cs
unfolding join_slash
split_slash-join_slash c [] a = split_slash-single c a.0.no_slash
split_slash-join_slash c (d ∷ cs) a =
    split_slash-append c (join_slash (d ∷ cs)) a.0.no_slash
    ∙ ap (◌∷◌ c) (split_slash-join_slash d cs a.1)

prefix_before_slash :
    (w c : Component) (p : FilePath)
    → has_slash w ≡ false
    → has_prefix w (c ++ slash ∷ p) ≡ has_prefix w c
prefix_before_slash [] c p h = refl
prefix_before_slash (x ∷ w) [] p h = ground arith
prefix_before_slash (x ∷ w) (y ∷ c) p h = ground (arith, prefix_before_slash w c p)

-- Of a relative path too every component is filled and holds no slash.
pub record IsPart (c : Component) : Type 0 where
  pub filled : text_eq c [] ≡ false
  pub no_slash : has_slash c ≡ false

push-IsPart :
    (c : Component) (stack : List Component)
    → has_slash c ≡ false
    → All IsPart stack
    → All IsPart (push false c stack)
unfolding push
push-IsPart c [] h a = ground arith
push-IsPart c (d ∷ stack) h a = ground arith

pub resolve-IsPart :
    (cs stack : List Component)
    → All NoSlash cs
    → All IsPart stack
    → All IsPart (resolve false cs stack)
unfolding resolve
resolve-IsPart [] stack h a = a
resolve-IsPart (c ∷ cs) stack h a =
    resolve-IsPart cs (push false c stack) h.1 (push-IsPart c stack h.0 a)

-- So it does not begin with a slash.
pub relative_start :
    (w : FilePath) (cs : List Component)
    → All IsPart cs
    → has_prefix (slash ∷ w) (join_slash cs) ≡ false
unfolding join_slash
relative_start w [] a = refl
relative_start w ([] ∷ cs) a = ground arith
relative_start w ((x ∷ c) ∷ []) a = ground arith
relative_start w ((x ∷ c) ∷ d ∷ cs) a = ground arith

pub prefix_of_join :
    (w c : Component) (cs : List Component)
    → has_slash w ≡ false
    → has_prefix w (join_slash (c ∷ cs)) ≡ has_prefix w c
unfolding join_slash
prefix_of_join w c [] h = refl
prefix_of_join w c (d ∷ cs) h = prefix_before_slash w c (join_slash (d ∷ cs)) h
