-- ===== src/Boot/Graphics/Answered.antt =====
-- What a driver answers to `InitUEFI_GOP` (src/bootloader/boot.c), which asks for a name in three languages.
use pious_os.Base.{ℕ, ◌≡◌, refl, ap, ◌∙◌, ◌⊎◌, inl, inr, false, Bool-cases, if◌then◌else◌}
use pious_os.Boot.Search.{Status, efi_error}
use pious_os.Boot.Image.Firmware.{pure, called}
use pious_os.Boot.Image.Post.{Post, Post-bind, Post-mono, Post-if}
use pious_os.Boot.Graphics.Names.{Language, en_us, en, eng, is_unsupported, in_language, name_or}

module _ {F : Type 0} where
  -- The name was answered in one of the languages, or it is the default one.
  abbrev pub Answered : (Language → F → (Status × ℕ) × F) → ℕ → ℕ → Type 0
  Answered answer default name =
      (name ≡ default)
      ⊎ ((language : Language) × (s : F) × (efi_error (answer language s).0.0 ≡ false)
          × ((answer language s).0.1 ≡ name))

  -- The result is that of a call.
  abbrev pub Called : (Language → F → (Status × ℕ) × F) → Status × ℕ → Type 0
  Called answer result = (language : Language) × (s : F) × ((answer language s).0 ≡ result)

  pub in_language-Called :
      (answer : Language → F → (Status × ℕ) × F) (s : F)
      → Post ⊥ (λ result s'. Called answer result) (in_language answer s)
  unfolding in_language
  in_language-Called answer s =
      let s1 = (answer en_us s).1 in
      Post-if ⊥ _ (is_unsupported (answer en_us s).0.0) _ (pure (answer en_us s).0) s1
        (λ e.
          let s2 = (answer en s1).1 in
          Post-if ⊥ _ (is_unsupported (answer en s1).0.0) (called (answer eng))
            (pure (answer en s1).0) s2 (λ e'. (eng, s2, refl)) (λ e'. (en, s1, refl)))
        (λ e. (en_us, s, refl))

  Answered-if :
      (answer : Language → F → (Status × ℕ) × F) (default : ℕ) (result : Status × ℕ)
      → Called answer result
      → Answered answer default (if efi_error result.0 then default else result.1)
  Answered-if answer default result (language, s, e) = elim (Bool-cases (efi_error result.0)) [
    | inl bad ↦ rw bad (inl refl)
    | inr good ↦ rw good (inr (language, s, ap (λ r. efi_error r.0) e ∙ good, ap (λ r. r.1) e))
  ]

  pub name_or-Answered :
      (answer : Language → F → (Status × ℕ) × F) (default : ℕ) (s : F)
      → Post ⊥ (λ name s'. Answered answer default name) (name_or default answer s)
  unfolding name_or
  name_or-Answered answer default s = Post-bind ⊥ _ (in_language answer) _ s (
      Post-mono ⊥ _ _ (in_language answer s) (λ result s1 h. Answered-if answer default result h)
        (in_language-Called answer s))
