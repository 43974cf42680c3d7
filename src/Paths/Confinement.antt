-- ===== src/Paths/Confinement.antt =====
-- What the guard of the file operations lets through, and what the upload does behind it.
use mathlib.Core.List.{reverse, reverse-reverse, append-nil}
use host_container.Prelude.{
  ◌≡◌, refl, sym, ap, ◌∙◌, true, false, List, [], ◌∷◌, arith, All, Bool-cases, inl, inr,
}
use host_container.Text.{codes, has_prefix}
use host_container.World.{FilePath}
use host_container.Paths.{
  Component, slash, dot_dot, split_slash, is_rooted, push, resolve, join_slash, render, clean, join,
  is_within, workspace,
}
use host_container.Paths.Components.{
  IsPlain, split_slash-NoSlash, resolve-IsPlain, All-reverse, resolve_plain, split_slash-join_slash,
  split_slash-append, prefix_of_join, IsPart, resolve-IsPart, relative_start,
}

abbrev pub workspace_name : Component
workspace_name = codes "workspace"

-- The components that are left of a rooted path.
parts : FilePath → List Component
parts p = reverse (resolve true (split_slash p) [])

parts-IsPlain : (p : FilePath) → All IsPlain (parts p)
unfolding parts
parts-IsPlain p =
    All-reverse IsPlain (resolve true (split_slash p) [])
      (resolve-IsPlain (split_slash p) [] (split_slash-NoSlash p) tt)

clean_rooted : (p : FilePath) → is_rooted p ≡ true → clean p ≡ slash ∷ join_slash (parts p)
unfolding clean parts render
clean_rooted p h = rw h

parts_plain :
    (c : Component) (cs : List Component)
    → All IsPlain (c ∷ cs)
    → parts (slash ∷ join_slash (c ∷ cs)) ≡ c ∷ cs
unfolding parts split_slash resolve push
parts_plain c cs a = rw (split_slash-join_slash c cs a) (
    ap reverse (resolve_plain (c ∷ cs) [] a ∙ append-nil (reverse (c ∷ cs)))
    ∙ reverse-reverse (c ∷ cs))

-- A rooted path of one or more components, none of them empty, `.` or `..` or with a slash, is
-- cleaned to itself.
pub clean_plain :
    (c : Component) (cs : List Component)
    → All IsPlain (c ∷ cs)
    → clean (slash ∷ join_slash (c ∷ cs)) ≡ slash ∷ join_slash (c ∷ cs)
unfolding is_rooted
clean_plain c cs a =
    clean_rooted (slash ∷ join_slash (c ∷ cs)) refl
    ∙ ap (λ (ds : List Component). slash ∷ join_slash ds) (parts_plain c cs a)

-- The guard accepts a rooted path of one or more components, none of them empty, `.` or `..` or with a
-- slash, exactly if the first begins with `workspace`: so also one that lies beside the workspace.
pub is_within_plain :
    (c : Component) (cs : List Component)
    → All IsPlain (c ∷ cs)
    → is_within (slash ∷ join_slash (c ∷ cs)) ≡ has_prefix workspace_name c
unfolding is_within
is_within_plain c cs a = rw (clean_plain c cs a) (prefix_of_join workspace_name c cs refl)

relative_refused : (p : FilePath) → is_rooted p ≡ false → is_within p ≡ false
unfolding is_within clean
relative_refused p h = rw h (
    refused (reverse (resolve false (split_slash p) []))
      (All-reverse IsPart _ (resolve-IsPart (split_slash p) [] (split_slash-NoSlash p) tt)))
  where
    refused : (cs : List Component) → All IsPart cs → has_prefix workspace (render false cs) ≡ false
    refused [] a = refl
    refused (c ∷ cs) a = relative_start workspace_name (c ∷ cs) a

-- What the guard accepts is, cleaned, a rooted path of components none of which is empty, `.` or
-- `..` or holds a slash, and the first of which begins with `workspace`.
pub is_within-confined :
    (p : FilePath)
    → is_within p ≡ true
    → (c : Component) × (cs : List Component) × (clean p ≡ slash ∷ join_slash (c ∷ cs))
      × (has_prefix workspace_name c ≡ true)
      × All IsPlain (c ∷ cs)
is_within-confined p h = elim (Bool-cases (is_rooted p)) [
  | inr relative ↦ cc (relative_refused p relative)
  | inl rooted ↦
      from_parts (parts p) (parts-IsPlain p) (clean_rooted p rooted) (unfold is_within in h)
]
  where
    from_parts :
        (ds : List Component)
        → All IsPlain ds
        → clean p ≡ slash ∷ join_slash ds
        → has_prefix workspace (clean p) ≡ true
        → (c : Component) × (cs : List Component) × (clean p ≡ slash ∷ join_slash (c ∷ cs))
          × (has_prefix workspace_name c ≡ true)
          × All IsPlain (c ∷ cs)
    from_parts [] a e g = unfold join_slash in cc (e)
    from_parts (c ∷ cs) a e g = (
      c,
      cs,
      e,
      sym (prefix_of_join workspace_name c cs refl) ∙ sym (ap (has_prefix workspace) e) ∙ g,
      a,
    )

-- The destination of a file that names itself `..` and is uploaded to a folder at the top, such as the
-- workspace, is the root directory, which the guard refuses.
pub upload_escapes :
    (c : Component)
    → IsPlain c
    → (join ((slash ∷ c) ∷ dot_dot ∷ []) ≡ slash ∷ []) × (is_within (slash ∷ []) ≡ false)
unfolding join is_within clean join_slash resolve push
upload_escapes c a =
    let kept : push true c [] ≡ c ∷ [] = ground arith in
    (rw (split_slash-append c dot_dot a.no_slash) (rw (kept, resolve) (ground arith)), refl)
