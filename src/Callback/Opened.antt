-- ===== src/Callback/Opened.antt =====
-- pkg/callback/multi_sender.go: the senders that `NewMultiSender` makes.
use kausality.Base.{
  String, not, ◌==◌, if◌then◌else◌, List, [], ◌∷◌, map, keep, is_empty, Option, none, some, ok, err,
  >>=-eq-ok, ok-injective, ◌≡◌, refl, sym, ap, ◌∙◌, inl, inr, Bool-cases, Result-cases,
}
use kausality.Callback.Multi.{
  SenderConfig, Files, with_defaults, new_sender, Networks, Sender, fresh_sender, open_senders,
  new_multi_sender,
}

-- The configurations that have a URL.
abbrev pub with_url : List SenderConfig → List SenderConfig
with_url configs = keep (λ c. not (c.url == "")) configs

err-ne-ok : {A : Type 0} {e : String} {a : A} → err e ≡ ok a → ⊥
err-ne-ok h = cc

new_sender-ok :
    (files : Files) (c filled : SenderConfig)
    → new_sender files c ≡ ok filled
    → filled ≡ with_defaults c
unfolding new_sender
new_sender-ok files c filled h = elim (Bool-cases (c.ca_file == "")) [
  | inl e ↦ sym (ok-injective (rw (e, new_sender) at h))
  | inr e ↦ elim (Result-cases (files.read_file c.ca_file)) [
    | inr (why, r) ↦ absurd (err-ne-ok (rw (e, r, new_sender) at h))
    | inl (text, r) ↦ elim (Bool-cases (files.has_certificates text)) [
      | inl v ↦ sym (ok-injective (rw (e, r, v, new_sender) at h))
      | inr v ↦ absurd (err-ne-ok (rw (e, r, v, new_sender) at h))
    ]
  ]
]

module _ (n : Networks) (files : Files) where
  open_senders-ok :
      (configs : List SenderConfig) (senders : List (Sender n))
      → open_senders n files configs ≡ ok senders
      → senders ≡ map (λ c. fresh_sender n (with_defaults c)) (with_url configs)
  unfolding open_senders
  open_senders-ok [] senders h = sym (ok-injective h)
  open_senders-ok (c ∷ configs) senders h = elim (Bool-cases (c.url == "")) [
    | inl e ↦ rw e (open_senders-ok configs senders (rw (e, open_senders) at h))
    | inr e ↦
        let (filled, f, k) = >>=-eq-ok (new_sender files c) _ (rw (e, open_senders) at h) in
        let (rest, r, l) = >>=-eq-ok (open_senders n files configs) _ k in
        let first = new_sender-ok files c filled f in
        let later = open_senders-ok configs rest r in
        sym (ok-injective l) ∙ rw e (λ i. fresh_sender n (first i) ∷ later i)
  ]

  -- If `NewMultiSender` makes senders at all, they are fresh ones for the configurations that have a
  -- URL, in their order and with the defaults filled in; it answers nil exactly for none of these.
  pub new_multi_sender-ok :
      (configs : List SenderConfig) (made : Option (List (Sender n)))
      → new_multi_sender n files configs ≡ ok made
      → made ≡ (
          if is_empty (with_url configs)
          then none
          else some (map (λ c. fresh_sender n (with_defaults c)) (with_url configs)))
  unfolding new_multi_sender
  new_multi_sender-ok configs made h =
      let (senders, o, m) = >>=-eq-ok (open_senders n files configs) _ h in
      sym (ok-injective m)
      ∙ ap (λ (x : List (Sender n)). if is_empty x then none else some x)
          (open_senders-ok configs senders o)
      ∙ by_shape (with_url configs)
    where
      by_shape :
          (kept : List SenderConfig)
          → (if is_empty (map (λ c. fresh_sender n (with_defaults c)) kept)
              then none
              else some (map (λ c. fresh_sender n (with_defaults c)) kept))
            ≡ (if is_empty kept
                then none
                else some (map (λ c. fresh_sender n (with_defaults c)) kept))
      by_shape [] = refl
      by_shape (c ∷ kept) = refl
