-- ===== src/Importer/Items/Mail.antt =====
-- The mails: twelve items at most in each.
use ascension_preservation.Common.{
  ℕ, zero, suc, ◌≤◌, ◌≡◌, refl, ap, ◌∙◌, List, [], ◌∷◌, ◌++◌, All, flat, length, take, drop,
  length-take, length-drop, take-append-drop, arith,
}
use ascension_preservation.Importer.Items.{mail_chunks, plan_mail}

module _ {ℓ} {A : Type ℓ} where
  abbrev pub IsMail : List A → Type 0
  IsMail mail = (1 ≤ length mail) × (length mail ≤ 12)

  flat-mail_chunks :
      (fuel : ℕ) (items : List A) → length items ≤ fuel → flat (mail_chunks fuel items) ≡ items
  unfolding mail_chunks
  flat-mail_chunks zero [] h = refl
  flat-mail_chunks zero (i ∷ items) h = absurd (omega arith)
  flat-mail_chunks (suc fuel) [] h = refl
  flat-mail_chunks (suc fuel) (i ∷ items) h =
      ap (λ rest. take 12 (i ∷ items) ++ rest)
        (flat-mail_chunks fuel (drop 12 (i ∷ items)) (omega (arith, length-drop 12 (i ∷ items))))
      ∙ take-append-drop 12 (i ∷ items)

  mail_chunks-IsMail : (fuel : ℕ) (items : List A) → All IsMail (mail_chunks fuel items)
  unfolding mail_chunks
  mail_chunks-IsMail zero items = tt
  mail_chunks-IsMail (suc fuel) [] = tt
  mail_chunks-IsMail (suc fuel) (i ∷ items) = (
    (omega arith, omega (arith, length-take 12 (i ∷ items))),
    mail_chunks-IsMail fuel (drop 12 (i ∷ items)),
  )

  -- The mails hold what is mailed, in its order, each item once, and no mail is empty or has more than twelve items.
  pub plan_mail-IsMail :
      (mailed : List A) → (flat (plan_mail mailed) ≡ mailed) × All IsMail (plan_mail mailed)
  unfolding plan_mail
  plan_mail-IsMail mailed = (
    flat-mail_chunks (length mailed) mailed (omega arith),
    mail_chunks-IsMail (length mailed) mailed,
  )
