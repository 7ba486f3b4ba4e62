-- ===== src/Events.antt =====
-- The events of controller-runtime that the controllers' predicates filter.

pub data Event {ℓ} (A : Type ℓ) : Type ℓ where
  create delete generic : A → Event A
  update : (old new : A) → Event A

-- The object of an event; the new one of an update.
abbrev pub subject {ℓ} : {A : Type ℓ} → Event A → A
subject (create a) = a
subject (delete a) = a
subject (generic a) = a
subject (update old new) = new
