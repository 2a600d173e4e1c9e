-- ===== src/Alerts/Distinct.antt =====
-- Rows of deliveries with distinct ids under a write to one of them.
use mathlib.Core.List.Memᴰ
use mathlib.Core.Logic.{⊎_elim}
use schema_sentry.Prelude.{
  ℕ, some, List, [], ◌∷◌, map, Memᴰ, ◌≡◌, ◌≢◌, ◌⊎◌, inl, inr, refl, sym, ap, ◌∙◌, subst, arith,
  ◌==◌, ℕ_eq, Bool-cases, IsUnique, contains_iff, Memᴰ-cons, mem-map_of_mem,
}
use schema_sentry.Domain.Enums.{AlertChannel_eq, AlertStatus_eq}
use schema_sentry.Store.{AlertDeliveryRow, find}
use schema_sentry.Alerts.{update_first}
use schema_sentry.Alerts.Rows.{}

-- ---------------------------------------------------------------- rows with distinct ids

pub find_of_mem :
    (xs : List AlertDeliveryRow) (d : AlertDeliveryRow)
    → IsUnique (map (λ d. d.id) xs)
    → Memᴰ d xs
    → find (λ x. x.id == d.id) xs ≡ some d
find_of_mem [] d u m = absurd (Memᴰ.not-nil m)
find_of_mem (x ∷ xs) d u (Memᴰ.head same) =
    ground (arith, ℕ_eq.test_iff x.id d.id, ap (λ r. r.id) same)
find_of_mem (x ∷ xs) d u (Memᴰ.tail m) = ground (
  arith,
  find_of_mem xs d u.1 m,
  ℕ_eq.test_iff x.id d.id,
  contains_iff x.id (map (λ (r : AlertDeliveryRow). r.id) xs),
  u.0,
  same_id,
)
  where
    same_id : x.id ≡ d.id → Memᴰ x.id (map (λ (r : AlertDeliveryRow). r.id) xs)
    same_id h =
        subst (λ i. Memᴰ i (map (λ (r : AlertDeliveryRow). r.id) xs)) (sym h)
          (mem-map_of_mem (λ (r : AlertDeliveryRow). r.id) xs m)

module _ (i : ℕ) (f : AlertDeliveryRow → AlertDeliveryRow) where
  -- A row of another id is found as before.
  pub find-update_other :
      (j : ℕ) (xs : List AlertDeliveryRow)
      → ((d : AlertDeliveryRow) → (f d).id ≡ d.id)
      → i ≢ j
      → find (λ x. x.id == j) (update_first (λ x. x.id == i) f xs) ≡ find (λ x. x.id == j) xs
  find-update_other j [] keep apart = refl
  find-update_other j (x ∷ xs) keep apart = ground (
    arith,
    find-update_other j xs keep apart,
    keep x,
    ℕ_eq.test_iff x.id i,
    ℕ_eq.test_iff x.id j,
    apart,
  )

  -- A row after the write is the one that was written, or was there under another id.
  pub mem_of_mem-update_first :
      (d : AlertDeliveryRow) (xs : List AlertDeliveryRow)
      → IsUnique (map (λ d. d.id) xs)
      → Memᴰ d (update_first (λ x. x.id == i) f xs)
      → ((x : AlertDeliveryRow) × (d ≡ f x)) ⊎ (Memᴰ d xs × (d.id ≢ i))
  mem_of_mem-update_first d [] u m = absurd (Memᴰ.not-nil m)
  mem_of_mem-update_first d (x ∷ xs) u m = elim (Bool-cases (x.id == i)) [
    | inl e ↦
        ⊎_elim (λ same. inl (x, same))
          (λ k. inr (
            Memᴰ.tail k,
            λ same. ground (
              arith,
              contains_iff x.id (map (λ (r : AlertDeliveryRow). r.id) xs),
              u.0,
              ℕ_eq.test_iff x.id i,
              e,
              same,
              subst (λ n. Memᴰ n (map (λ (r : AlertDeliveryRow). r.id) xs))
                  (same ∙ sym ((ℕ_eq.test_iff x.id i).0 e))
                  (mem-map_of_mem (λ (r : AlertDeliveryRow). r.id) xs k),
            ),
          ))
          ((Memᴰ-cons d (f x) xs).0 (subst (λ l. Memᴰ d l) (rw e refl) m))
    | inr e ↦
        ⊎_elim
          (λ same.
            inr (
              Memᴰ.head same,
              λ h. ground (arith, ℕ_eq.test_iff x.id i, e, h, ap (λ r. r.id) same),
            ))
          (λ k.
            ⊎_elim (λ written. inl written) (λ (other, apart). inr (Memᴰ.tail other, apart))
              (mem_of_mem-update_first d xs u.1 k))
          ((Memᴰ-cons d x (update_first (λ y. y.id == i) f xs)).0
            (subst (λ l. Memᴰ d l) (rw e refl) m))
  ]
