-- ===== src/Node/Relay/Order.antt =====
-- Lists of tasks that end with a signal to stop.
use mathlib.Core.Bool.{false≢true}
use mathlib.Core.List.{cons-ne-nil}
use stripe_merge.Common.{
  ◌≡◌, ◌≢◌, refl, sym, ap, ap₂, ◌∙◌, subst, true, false, List, [], ◌∷◌, ◌++◌, All,
}
use stripe_merge.Migration.{MigrationInfo}
use stripe_merge.Node.Relay.Rounds.{is_stop}

abbrev head_or : MigrationInfo → List MigrationInfo → MigrationInfo
head_or d [] = d
head_or d (x ∷ xs) = x

abbrev rest_of : List MigrationInfo → List MigrationInfo
rest_of [] = []
rest_of (x ∷ xs) = xs

pub All-right {κ} :
    (P : MigrationInfo → Type κ) (xs ys : List MigrationInfo) → All P (xs ++ ys) → All P ys
All-right P [] ys h = h
All-right P (x ∷ xs) ys h = All-right P xs ys h.1

-- The first signal to stop in a list that ends with one, of which the rest are tasks.
pub cut :
    (xs ys ts : List MigrationInfo) (z stop : MigrationInfo)
    → All (λ x. is_stop x ≡ false) xs
    → All (λ x. is_stop x ≡ false) ts
    → is_stop z ≡ true
    → xs ++ z ∷ ys ≡ ts ++ stop ∷ []
    → (xs ≡ ts) × (ys ≡ [])
cut [] ys [] z stop a b h e = (refl, ap rest_of e)
cut [] ys (t ∷ ts) z stop a b h e =
    absurd (false≢true (sym b.0 ∙ ap is_stop (sym (ap (head_or z) e)) ∙ h))
cut (x ∷ []) ys [] z stop a b h e = absurd (cons-ne-nil z ys (ap rest_of e))
cut (x ∷ y ∷ xs) ys [] z stop a b h e = absurd (cons-ne-nil y (xs ++ z ∷ ys) (ap rest_of e))
cut (x ∷ xs) ys (t ∷ ts) z stop a b h e =
    let (same, over) = cut xs ys ts z stop a.1 b.1 h (ap rest_of e) in
    (ap₂ (λ u v. u ∷ v) (ap (head_or x) e) same, over)

pub both_nil : (xs ys : List MigrationInfo) → xs ++ ys ≡ [] → (xs ≡ []) × (ys ≡ [])
both_nil [] ys e = (refl, e)
both_nil (x ∷ xs) ys e = absurd (cons-ne-nil x (xs ++ ys) e)

-- Without a signal to stop, a list does not end with one.
pub no_stop :
    (xs ts : List MigrationInfo) (stop : MigrationInfo)
    → All (λ x. is_stop x ≡ false) xs
    → is_stop stop ≡ true
    → xs ≢ ts ++ stop ∷ []
no_stop xs ts stop a h e = false≢true (
    sym
      (All-right (λ x. is_stop x ≡ false) ts (stop ∷ [])
        (subst (All (λ x. is_stop x ≡ false)) e a)).0
    ∙ h)
