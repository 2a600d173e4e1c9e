-- ===== src/Alerts/Rows.antt =====
-- The rows of the deliveries under a write to one of them.

use schema_sentry.Prelude.{
  ℕ, String, Bool, true, Option, some, List, [], ◌∷◌, map, ◌≡◌, inl, inr, refl, sym, subst, arith,
  ◌==◌, ℕ_eq, Bool-cases, All,
}
use schema_sentry.Prelude.Result.{ok}
use schema_sentry.Store.{Db, AlertDeliveryRow, find}
use schema_sentry.Alerts.{
  delivery_record, find_delivery, delivery, update_first, update_delivery, started,
  mark_attempt_started, sent_with, mark_sent, failed_with, mark_failed,
}

module _ {ℓ} {A : Type ℓ} (p : A → Bool) (f : A → A) where
  pub find-update_first :
      (xs : List A) (a : A)
      → find p xs ≡ some a
      → p (f a) ≡ true
      → find p (update_first p f xs) ≡ some (f a)
  find-update_first [] a h keep = ground arith
  find-update_first (x ∷ xs) a h keep = ground (arith, find-update_first xs a)

  -- What holds of the rows holds after the write, if it holds of the row that was written.
  pub All-update_first {κ} :
      (P : A → Type κ) (xs : List A)
      → All P xs
      → ((a : A) → find p xs ≡ some a → P a → P (f a))
      → All P (update_first p f xs)
  All-update_first P [] all written = tt
  All-update_first P (x ∷ xs) all written = elim (Bool-cases (p x)) [
    | inl e ↦ rw e (written x (rw e refl) all.0, all.1)
    | inr e ↦ rw e (all.0, All-update_first P xs all.1 (λ a h. written a (rw e h)))
  ]

-- A write that keeps the row's id keeps the ids.
pub ids-update_first :
    (p : AlertDeliveryRow → Bool) (f : AlertDeliveryRow → AlertDeliveryRow)
    (xs : List AlertDeliveryRow)
    → ((d : AlertDeliveryRow) → (f d).id ≡ d.id)
    → map (λ d. d.id) (update_first p f xs) ≡ map (λ d. d.id) xs
ids-update_first p f [] keep = refl
ids-update_first p f (x ∷ xs) keep = ground (arith, keep x, ids-update_first p f xs keep)

-- Two writes to the same row are one.
pub update_first-update_first {ℓ} :
    {A : Type ℓ} (p : A → Bool) (f g : A → A) (xs : List A)
    → ((a : A) → p (f a) ≡ p a)
    → update_first p g (update_first p f xs) ≡ update_first p (λ a. g (f a)) xs
update_first-update_first p f g [] keep = refl
update_first-update_first p f g (x ∷ xs) keep =
    ground (arith, keep x, update_first-update_first p f g xs keep)

pub found_id :
    (id : ℕ) (xs : List AlertDeliveryRow) (d : AlertDeliveryRow)
    → find (λ d. d.id == id) xs ≡ some d
    → (d.id == id) ≡ true
found_id id [] d h = ground arith
found_id id (x ∷ xs) d h = ground (arith, found_id id xs d)

-- ---------------------------------------------------------------- the writes

pub delivery-eq :
    (id : ℕ) (db : Db) (d : AlertDeliveryRow)
    → find_delivery id db ≡ some d
    → delivery id db ≡ (ok d, db)
unfolding delivery
delivery-eq id db d h = rw (h, delivery) refl

pub mark_attempt_started-eq :
    (id : ℕ) (db : Db) (d : AlertDeliveryRow)
    → find_delivery id db ≡ some d
    → mark_attempt_started id db ≡ (ok (delivery_record (started d)), update_delivery id started db)
unfolding mark_attempt_started
mark_attempt_started-eq id db d h = rw (delivery-eq id db d h) refl

pub mark_sent-eq :
    (id : ℕ) (receipt : Option String) (now : ℕ) (db : Db) (d : AlertDeliveryRow)
    → find_delivery id db ≡ some d
    → mark_sent id receipt now db ≡ (ok tt, update_delivery id (sent_with receipt now) db)
unfolding mark_sent
mark_sent-eq id receipt now db d h = rw (delivery-eq id db d h) refl

pub mark_failed-eq :
    (id : ℕ) (text : String) (next : Option ℕ) (db : Db) (d : AlertDeliveryRow)
    → find_delivery id db ≡ some d
    → mark_failed id text next db ≡ (ok tt, update_delivery id (failed_with text next) db)
unfolding mark_failed
mark_failed-eq id text next db d h = rw (delivery-eq id db d h) refl

-- A row that keeps its id is found again after the write.
pub find-update_delivery :
    (id : ℕ) (f : AlertDeliveryRow → AlertDeliveryRow) (db : Db) (d : AlertDeliveryRow)
    → find_delivery id db ≡ some d
    → (f d).id ≡ d.id
    → find_delivery id (update_delivery id f db) ≡ some (f d)
find-update_delivery id f db d h keep =
    find-update_first (λ d. d.id == id) f db.deliveries d h
      (subst (λ n. (n == id) ≡ true) (sym keep) (found_id id db.deliveries d h))
