-- ===== src/Artifact/Manifests.antt =====
-- Which entry names artifact.go takes as a root manifest.
use iicpc.Prelude.{
  ℕ, ◌≡◌, refl, Bool, true, false, not, ◌&&◌, List, [], ◌∷◌, ◌++◌, arith, leb, length, any, all, ap,
  ◌∙◌, ◌+◌, ◌<◌, List-cases, inl, inr,
}
use iicpc.Artifact.{
  Text, same_text, root_manifests, is_separator, is_dot, is_dot_dot, components, clean_step, clean,
  is_rooted, is_root_manifest,
}

-- A name of a file or a directory: not empty, not "." or "..", and no separator in it.
abbrev pub is_plain : Text → Bool
is_plain c =
    not (same_text c []) && not (is_dot c) && not (is_dot_dot c) && not (any is_separator c)

-- Pieces joined by a separator.
abbrev pub join : ℕ → List Text → Text
join s [] = []
join s (c ∷ []) = c
join s (c ∷ d ∷ cs) = c ++ s ∷ join s (d ∷ cs)

-- In a path of plain names: the last is a root manifest, and it stands in one directory at most.
abbrev pub is_manifest_at_root : List Text → Bool
is_manifest_at_root [] = false
is_manifest_at_root (f ∷ []) = any (same_text f) root_manifests
is_manifest_at_root (d ∷ f ∷ []) = any (same_text f) root_manifests
is_manifest_at_root _ = false

components-plain :
    (c rest : Text) (s : ℕ)
    → any is_separator c ≡ false
    → is_separator s ≡ true
    → components (c ++ s ∷ rest) ≡ c ∷ components rest
unfolding components
components-plain [] rest s plain sep = ground (arith, sep)
components-plain (b ∷ c) rest s plain sep =
    ground (arith, components-plain c rest s (ground arith) sep)

components-last : (c : Text) → any is_separator c ≡ false → components c ≡ c ∷ []
unfolding components
components-last [] plain = refl
components-last (b ∷ c) plain = ground (arith, components-last c (ground arith))

components-join :
    (s : ℕ) (c : Text) (cs : List Text)
    → is_separator s ≡ true
    → all is_plain (c ∷ cs) ≡ true
    → components (join s (c ∷ cs)) ≡ c ∷ cs
components-join s c [] sep plain = components-last c (ground arith)
components-join s c (d ∷ cs) sep plain =
    components-plain c (join s (d ∷ cs)) s (ground arith) sep
    ∙ ap (λ ds. c ∷ ds) (components-join s d cs sep (ground arith))

-- Plain pieces are put on the stack one by one.
abbrev pile : List Text → List Text → List Text
pile stack [] = stack
pile stack (c ∷ cs) = pile (c ∷ stack) cs

clean_step-plain :
    (rooted : Bool) (stack : List Text) (c : Text)
    → is_plain c ≡ true
    → clean_step rooted stack c ≡ c ∷ stack
unfolding clean_step
clean_step-plain rooted [] c h = ground arith
clean_step-plain rooted (p ∷ ps) c h = ground arith

clean-plain :
    (rooted : Bool) (stack cs : List Text)
    → all is_plain cs ≡ true
    → clean rooted stack cs ≡ pile stack cs
unfolding clean
clean-plain rooted stack [] plain = refl
clean-plain rooted stack (c ∷ cs) plain =
    ap (λ st. clean rooted st cs) (clean_step-plain rooted stack c (ground arith))
    ∙ clean-plain rooted (c ∷ stack) cs (ground arith)

length-pile : (stack cs : List Text) → length (pile stack cs) ≡ length stack + length cs
length-pile stack [] = omega arith
length-pile stack (c ∷ cs) = omega (arith, length-pile (c ∷ stack) cs)

abbrev of_pieces : List Text → Bool
of_pieces [] = false
of_pieces (base ∷ above) = any (same_text base) root_manifests && leb (length (base ∷ above)) 2

of_pieces-long : (cs : List Text) → 2 < length cs → of_pieces cs ≡ false
of_pieces-long [] h = absurd (omega arith)
of_pieces-long (c ∷ cs) h = ground arith

of_pieces-pile : (cs : List Text) → of_pieces (pile [] cs) ≡ is_manifest_at_root cs
of_pieces-pile [] = refl
of_pieces-pile (f ∷ []) = ground arith
of_pieces-pile (d ∷ f ∷ []) = ground arith
of_pieces-pile (a ∷ b ∷ c ∷ cs) =
    of_pieces-long (pile [] (a ∷ b ∷ c ∷ cs)) (omega (arith, length-pile [] (a ∷ b ∷ c ∷ cs)))

is_root_manifest-pieces :
    (path : Text) → is_root_manifest path ≡ of_pieces (clean (is_rooted path) [] (components path))
unfolding is_root_manifest
is_root_manifest-pieces path = elim (List-cases (clean (is_rooted path) [] (components path))) [
  | inl e ↦ rw (e, is_root_manifest) refl
  | inr (b, bs, e) ↦ rw (e, is_root_manifest) refl
]

-- The path "./" and the same without.
dot_slash :
    (s : ℕ) (rest : Text)
    → is_separator s ≡ true
    → components (46 ∷ s ∷ rest) ≡ (46 ∷ []) ∷ components rest
unfolding components
dot_slash s rest h = ground (arith, h)

clean-dot : (rooted : Bool) (cs : List Text) → clean rooted [] ((46 ∷ []) ∷ cs) ≡ clean rooted [] cs
unfolding clean clean_step same_text
clean-dot rooted cs = refl

-- For a path made of plain names, joined by slashes or by backslashes, with "./" in front or not:
-- `isRootManifest` holds exactly if the last name is Makefile, Cargo.toml or go.mod and stands in one
-- directory at most.
is_root_manifest-join :
    (s : ℕ) (c : Text) (cs : List Text)
    → is_separator s ≡ true
    → all is_plain (c ∷ cs) ≡ true
    → (is_root_manifest (join s (c ∷ cs)) ≡ is_manifest_at_root (c ∷ cs))
      × (is_root_manifest (46 ∷ s ∷ join s (c ∷ cs)) ≡ is_manifest_at_root (c ∷ cs))
is_root_manifest-join s c cs sep plain =
    let pieces = components-join s c cs sep plain in
    let path : Text = join s (c ∷ cs) in
    (
      is_root_manifest-pieces path
          ∙ ap of_pieces (
              ap (clean (is_rooted path) []) pieces
              ∙ clean-plain (is_rooted path) [] (c ∷ cs) plain)
          ∙ of_pieces-pile (c ∷ cs),
      is_root_manifest-pieces (46 ∷ s ∷ path)
          ∙ ap of_pieces (
              ap (clean false []) (dot_slash s path sep ∙ ap (λ ps. (46 ∷ []) ∷ ps) pieces)
              ∙ clean-dot false (c ∷ cs)
              ∙ clean-plain false [] (c ∷ cs) plain)
          ∙ of_pieces-pile (c ∷ cs),
    )
