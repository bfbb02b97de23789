-- ===== src/Plugin/Escapes.antt =====
-- cmd/example-generic-control-plane/pkg/admission/kausality.go: `parsePath` reads back the pointer of
-- a list of keys.
use Prim.Native.Char.{Char, code}
use Prim.Native.String.{String, [], ◌∷◌, ◌++◌}
use text.Mathlib.TextLemmas.{
  nil-append, cons-append, append-nil, append_assoc, cons-ne-nil, tail-eq_of_cons-eq,
}
use kausality.Base.{
  Bool, ◌&&◌, &&-eq-true, true, false, ◌==◌, if◌then◌else◌, ltb, List, [], ◌∷◌, All, ◌≡◌, ◌≢◌, refl,
  sym, ap, ◌∙◌, inl, inr, Bool-cases, eq_iff, ne→eq-false,
}
use kausality.Base.Prefix.{char_eq}
use kausality.Plugin.Pointer.{
  widen, is_slash, is_tilde, escaped, unescape_path_segment, split_path, parse_path,
}

-- RFC 6901: the escape of a key, and the pointer of a list of keys.
unfoldable pub escape : String → String
escape [] = []
escape (c ∷ s) =
    if is_tilde c
    then "~" ∷ "0" ∷ escape s
    else if is_slash c
    then "~" ∷ "1" ∷ escape s
    else c ∷ escape s

unfoldable pub pointer_of : List String → String
unfolding escape
pointer_of [] = []
pointer_of (k ∷ keys) = "/" ∷ (escape k ++ pointer_of keys)

abbrev pub IsAscii : String → Type 0
IsAscii [] = Unit
IsAscii (c ∷ s) = (ltb (code c) 128 ≡ true) × IsAscii s

abbrev pub is_ascii : String → Bool
is_ascii [] = true
is_ascii (c ∷ s) = ltb (code c) 128 && is_ascii s

pub is_ascii-IsAscii : (s : String) → is_ascii s ≡ true → IsAscii s
is_ascii-IsAscii [] h = tt
is_ascii-IsAscii (c ∷ s) h =
    let both = (&&-eq-true (ltb (code c) 128) (is_ascii s)).0 h in
    (both.0, is_ascii-IsAscii s both.1)

-- A text that the loop of `parsePath` takes into the current segment as it is.
abbrev IsSegment : String → Type 0
IsSegment [] = Unit
IsSegment (c ∷ s) = (ltb (code c) 128 ≡ true) × (is_slash c ≡ false) × IsSegment s

widen_ascii : (c : Char) → ltb (code c) 128 ≡ true → widen c ≡ c ∷ []
unfolding widen
widen_ascii c h = rw h refl

unescape-plain :
    (c : Char) (s : String)
    → ltb (code c) 128 ≡ true
    → is_tilde c ≡ false
    → unescape_path_segment (c ∷ s) ≡ c ∷ unescape_path_segment s
unfolding unescape_path_segment escaped
unescape-plain c [] h t = widen_ascii c h
unescape-plain c (d ∷ s) h t =
    rw (t, unescape_path_segment, escaped, widen_ascii c h, cons-append, nil-append) refl

unescape-escape : (k : String) → IsAscii k → unescape_path_segment (escape k) ≡ k
unfolding escape unescape_path_segment escaped
unescape-escape [] h = refl
unescape-escape (c ∷ s) h = elim (Bool-cases (is_tilde c)) [
  | inl t ↦ rw (t, escape, unescape-escape s h.1) (ap (λ d. d ∷ s) (sym (char_eq c "~" t)))
  | inr t ↦ elim (Bool-cases (is_slash c)) [
    | inl u ↦ rw (t, u, escape, unescape-escape s h.1) (ap (λ d. d ∷ s) (sym (char_eq c "/" u)))
    | inr u ↦ rw (t, u, escape, unescape-plain c (escape s) h.0 t, unescape-escape s h.1) refl
  ]
]

escape-IsSegment : (k : String) → IsAscii k → IsSegment (escape k)
unfolding escape
escape-IsSegment [] h = tt
escape-IsSegment (c ∷ s) h = elim (Bool-cases (is_tilde c)) [
  | inl t ↦ rw (t, escape) (refl, refl, (refl, refl, escape-IsSegment s h.1))
  | inr t ↦ elim (Bool-cases (is_slash c)) [
    | inl u ↦ rw (t, u, escape) (refl, refl, (refl, refl, escape-IsSegment s h.1))
    | inr u ↦ rw (t, u, escape) (h.0, u, escape-IsSegment s h.1)
  ]
]

split_path-append :
    (current k s : String) → IsSegment k → split_path current (k ++ s) ≡ split_path (current ++ k) s
unfolding split_path
split_path-append current [] s h = rw (nil-append, append-nil) refl
split_path-append current (c ∷ k) s (ascii, slash, rest) =
    rw
      (
        cons-append c k s,
        split_path,
        slash,
        widen_ascii c ascii,
        split_path-append (current ++ (c ∷ [])) k s rest,
        append_assoc,
        cons-append,
        nil-append,
      )
      refl

escape-ne-nil : (k : String) → k ≢ [] → escape k ≢ []
unfolding escape
escape-ne-nil [] h e = h refl
escape-ne-nil (c ∷ s) h e = elim (Bool-cases (is_tilde c)) [
  | inl t ↦ cons-ne-nil _ _ (rw (t, escape) at e)
  | inr t ↦ elim (Bool-cases (is_slash c)) [
    | inl u ↦ cons-ne-nil _ _ (rw (t, u, escape) at e)
    | inr u ↦ cons-ne-nil _ _ (rw (t, u, escape) at e)
  ]
]

abbrev pub Ends : String → List String → Type 0
Ends k [] = k ≢ []
Ends k (l ∷ keys) = Ends l keys

split_path-pointer_of :
    (k : String) (keys : List String)
    → All IsAscii (k ∷ keys)
    → Ends k keys
    → split_path [] (escape k ++ pointer_of keys) ≡ k ∷ keys
unfolding split_path pointer_of
split_path-pointer_of k [] h e =
    split_path-append [] (escape k) [] (escape-IsSegment k h.0)
    ∙ rw
        (
          nil-append,
          split_path,
          ne→eq-false (escape k) [] (escape-ne-nil k e),
          unescape-escape k h.0,
        )
        refl
split_path-pointer_of k (l ∷ keys) h e =
    split_path-append [] (escape k) _ (escape-IsSegment k h.0)
    ∙ rw (nil-append, split_path, unescape-escape k h.0, split_path-pointer_of l keys h.1 e) refl

nil-ne-cons : (k : String) (keys : List String) → split_path [] [] ≡ k ∷ keys → ⊥
unfolding split_path
nil-ne-cons k keys h = cc

-- The pointer that RFC 6901 writes for a list of keys, all of them ASCII and the last one not empty,
-- is parsed to these keys.
pub parse_path-pointer_of :
    (k : String) (keys : List String)
    → All IsAscii (k ∷ keys)
    → Ends k keys
    → parse_path (pointer_of (k ∷ keys)) ≡ k ∷ keys
unfolding parse_path pointer_of
parse_path-pointer_of k keys h e = elim (Bool-cases (pointer_of (k ∷ keys) == "/")) [
  | inl t ↦
      let rest : escape k ++ pointer_of keys ≡ [] =
        tail-eq_of_cons-eq ((eq_iff (pointer_of (k ∷ keys)) "/").0 t) in
      absurd (nil-ne-cons k keys (sym (ap (split_path []) rest) ∙ split_path-pointer_of k keys h e))
  | inr t ↦ rw (t, parse_path) (split_path-pointer_of k keys h e)
]
