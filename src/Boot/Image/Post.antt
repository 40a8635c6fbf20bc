-- ===== src/Boot/Image/Post.antt =====
-- Postconditions of the parts of `BootKernel` (src/bootloader/boot.c), with the rules that follow a run.
use pious_os.Base.{◌≡◌, refl, Bool, true, false, if◌then◌else◌}
use mathlib.Core.Path.{subst}
use pious_os.Boot.Search.{Status, efi_error}
use pious_os.Boot.Image.Firmware.{Result, ok, returned, out_of_fuel, Run, go_on, checked, ◌>>=◌}

-- The value and the state satisfy `P`, where the run ends with a value. `Stuck` is what holds where it is out
-- of fuel: `⊥` asks for enough of it.
abbrev pub Post : {F A : Type 0} → Type 0 → (A → F → Type 0) → Result A × F → Type 0
Post Stuck P (ok a, s) = P a s
Post Stuck P (returned status, s) = Unit
Post Stuck P (out_of_fuel, s) = Stuck

pub post_ok :
    {F A : Type 0} (Stuck : Type 0) (P : A → F → Type 0) (x : Result A × F) {a : A} {s : F}
    → x ≡ (ok a, s)
    → Post Stuck P x
    → P a s
post_ok Stuck P x e h = subst (Post Stuck P) e h

pub Post-bind :
    {F A B : Type 0} (Stuck : Type 0) (P : B → F → Type 0) (m : Run F A) (f : A → Run F B) (s : F)
    → Post Stuck (λ a s'. Post Stuck P (f a s')) (m s)
    → Post Stuck P ((m >>= f) s)
Post-bind Stuck P m f s h = post_go_on (m s) h
  where
    post_go_on :
        (x : Result _ × _) → Post Stuck (λ a s'. Post Stuck P (f a s')) x → Post Stuck P (go_on x f)
    post_go_on (ok a, s) h = h
    post_go_on (returned status, s) h = tt
    post_go_on (out_of_fuel, s) h = h

pub Post-mono :
    {F A : Type 0} (Stuck : Type 0) (P Q : A → F → Type 0) (x : Result A × F)
    → ((a : A) (s : F) → P a s → Q a s)
    → Post Stuck P x
    → Post Stuck Q x
Post-mono Stuck P Q (ok a, s) f h = f a s h
Post-mono Stuck P Q (returned status, s) f h = tt
Post-mono Stuck P Q (out_of_fuel, s) f h = h

pub Post-if :
    {F A : Type 0} (Stuck : Type 0) (P : A → F → Type 0) (b : Bool) (m n : Run F A) (s : F)
    → (b ≡ true → Post Stuck P (m s))
    → (b ≡ false → Post Stuck P (n s))
    → Post Stuck P ((if b then m else n) s)
Post-if Stuck P true m n s h h' = h refl
Post-if Stuck P false m n s h h' = h' refl

Post-pick :
    {F A : Type 0} (Stuck : Type 0) (P : A → F → Type 0) (b : Bool) (status : Status) (a : A)
    (s : F)
    → (b ≡ false → P a s)
    → Post Stuck P (if b then returned status else ok a, s)
Post-pick Stuck P true status a s h = tt
Post-pick Stuck P false status a s h = h refl

pub Post-checked :
    {F : Type 0} (Stuck : Type 0) (P : Status → F → Type 0) (f : F → Status × F) (s : F)
    → (efi_error (f s).0 ≡ false → P (f s).0 (f s).1)
    → Post Stuck P (checked f s)
Post-checked Stuck P f s h = Post-pick Stuck P (efi_error (f s).0) (f s).0 (f s).0 (f s).1 h

pub Post-always :
    {F A : Type 0} (P : A → F → Type 0) (x : Result A × F)
    → ((a : A) (s : F) → P a s)
    → Post Unit P x
Post-always P (ok a, s) h = h a s
Post-always P (returned status, s) h = tt
Post-always P (out_of_fuel, s) h = tt

ends_or :
    {F A : Type 0} (Stuck : Type 0) (P : A → F → Type 0) (x : Result A × F)
    → (x.0 ≡ out_of_fuel → Stuck)
    → Post Unit P x
    → Post Stuck P x
ends_or Stuck P (ok a, s) stuck h = h
ends_or Stuck P (returned status, s) stuck h = tt
ends_or Stuck P (out_of_fuel, s) stuck h = stuck refl

-- Without enough fuel, the run that was out of it is known.
pub Post-stuck :
    {F A : Type 0} (P : A → F → Type 0) (m : Run F A) (s : F)
    → Post Unit P (m s)
    → Post ((s1 : F) × ((m s1).0 ≡ out_of_fuel)) P (m s)
Post-stuck P m s h = ends_or _ P (m s) (λ e. (s, e)) h

pub Post-more :
    {F A : Type 0} (Stuck : Type 0) (P : A → F → Type 0) (x : Result A × F)
    → Post ⊥ P x
    → Post Stuck P x
Post-more Stuck P (ok a, s) h = h
Post-more Stuck P (returned status, s) h = tt
Post-more Stuck P (out_of_fuel, s) h = absurd h

pub Post-weaken :
    {F A : Type 0} (Stuck : Type 0) (P : A → F → Type 0) (x : Result A × F)
    → Post Stuck P x
    → Post Unit P x
Post-weaken Stuck P (ok a, s) h = h
Post-weaken Stuck P (returned status, s) h = tt
Post-weaken Stuck P (out_of_fuel, s) h = tt

-- A step of which nothing is asked.
pub Post-then :
    {F A B : Type 0} (P : B → F → Type 0) (m : Run F A) (f : A → Run F B) (s : F)
    → ((a : A) (s' : F) → Post Unit P (f a s'))
    → Post Unit P ((m >>= f) s)
Post-then P m f s h = Post-bind Unit P m f s (Post-always _ (m s) h)

-- A step with its own postcondition.
pub Post-seq :
    {F A B : Type 0} (Stuck : Type 0) (Q : A → F → Type 0) (P : B → F → Type 0) (m : Run F A)
    (f : A → Run F B) (s : F)
    → Post Stuck Q (m s)
    → ((a : A) (s' : F) → Q a s' → Post Stuck P (f a s'))
    → Post Stuck P ((m >>= f) s)
Post-seq Stuck Q P m f s h next =
    Post-bind Stuck P m f s (Post-mono Stuck Q (λ a s'. Post Stuck P (f a s')) (m s) next h)

-- A call that succeeds, and what follows it.
pub Post-call :
    {F B : Type 0} (Stuck : Type 0) (P : B → F → Type 0) (call : F → Status × F)
    (f : Status → Run F B) (s : F)
    → (efi_error (call s).0 ≡ false → Post Stuck P (f (call s).0 (call s).1))
    → Post Stuck P ((checked call >>= f) s)
Post-call Stuck P call f s h =
    Post-bind Stuck P (checked call) f s
      (Post-checked Stuck (λ status s'. Post Stuck P (f status s')) call s h)
