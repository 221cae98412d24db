-- ===== src/Companion/Buffer.antt =====
-- `SportsCompanionBuffer`: the snapshots of one game with the times they were received, and the one
-- that may be shown after a delay.
use silo_plugin_dispatcharr.Base.{
  ℕ, ◌+◌, ◌*◌, ◌≤◌, ◌<◌, String, ◌⊎◌, Bool, Option, none, some, List, [], ◌∷◌, ◌++◌, leb,
  if◌then◌else◌, length, filter, take_last, All, string_eq, nat_eq, ◌==◌,
}

module _ {ℓ} (Data : Type ℓ) where
  pub record Snapshot : Type ℓ where
    pub data_ : Data
    pub at : ℕ

  pub record Buffer : Type ℓ where
    pub game : String
    pub snapshots : List Snapshot

unfoldable pub new_buffer {ℓ} : (Data : Type ℓ) → Buffer Data
new_buffer Data = record { game = ""; snapshots = [] }

-- `(x) => now - x.at <= 360000`
abbrev pub is_kept {ℓ} : {Data : Type ℓ} → ℕ → Snapshot Data → Bool
is_kept now x = leb now (x.at + 360000)

-- `(x) => x.at <= now - seconds * 1000`
abbrev pub is_due {ℓ} : {Data : Type ℓ} → ℕ → ℕ → Snapshot Data → Bool
is_due seconds now x = leb (x.at + seconds * 1000) now

-- `list.slice(-1)[0] || null`
abbrev pub last_one {ℓ} : {A : Type ℓ} → List A → Option A
last_one [] = none
last_one (x ∷ []) = some x
last_one (x ∷ (y ∷ ys)) = last_one (y ∷ ys)

unfoldable pub push {ℓ} : {Data : Type ℓ} → String → Data → ℕ → Buffer Data → Buffer Data
push game data_ now buffer =
    let old = if game == buffer.game then buffer.snapshots else [] in
    record {
      game = game;
      snapshots =
          take_last 32 (filter (is_kept now) (old ++ record { data_ = data_; at = now } ∷ []));
    }

unfoldable pub read {ℓ} : {Data : Type ℓ} → String → ℕ → ℕ → Buffer Data → Option (Snapshot Data)
read game seconds now buffer =
    if game == buffer.game then last_one (filter (is_due seconds now) buffer.snapshots) else none

-- Received in this order.
abbrev pub InOrder {ℓ} : {Data : Type ℓ} → List (Snapshot Data) → Type ℓ
InOrder [] = Unit
InOrder (x ∷ xs) = All (λ y. x.at ≤ y.at) xs × InOrder xs

-- A buffer whose pushes were all made by the time `now`.
abbrev pub IsBuffer {ℓ} : {Data : Type ℓ} → ℕ → Buffer Data → Type ℓ
IsBuffer now b = (length b.snapshots ≤ 32) × All (λ x. x.at ≤ now) b.snapshots × InOrder b.snapshots

-- What a reader of snapshots may be given: one that is old enough, none newer being so.
abbrev pub IsAnswer {ℓ} :
    {Data : Type ℓ} → ℕ → ℕ → List (Snapshot Data) → Option (Snapshot Data) → Type 0
IsAnswer seconds now snapshots none = All (λ y. now < y.at + seconds * 1000) snapshots
IsAnswer seconds now snapshots (some x) =
    (x.at + seconds * 1000 ≤ now)
    × All (λ y. (now < y.at + seconds * 1000) ⊎ (y.at ≤ x.at)) snapshots
