-- ===== src/RuntimeConfig/Sync/Order.antt =====
-- Generations that are applied, read and stored, and reloads of which at most one is under way.
use device_management.RuntimeConfig.Process.{newer_generation}
use device_management.RuntimeConfig.Admin.{bump_generation}
use device_management.RuntimeConfig.Sync.{Reloader, by_loop, by_request, other, Phase, idle, put}
use device_management.Prelude.{
  ℕ, ◌≤◌, ◌≡◌, refl, sym, ◌≢◌, ◌⊎◌, inl, inr, Option, none, some, arith, none-ne-some, nat_eq,
  string_eq, pair_eq, list_eq,
}

-- a generation that was applied is no later than one that was read, or than that of the table
abbrev pub NotAhead : Option ℕ → Option ℕ → Type 0
NotAhead none generation = Unit
NotAhead (some a) none = ⊥
NotAhead (some a) (some g) = a ≤ g

-- a generation that was read from the table: a table without a row stays without one
abbrev pub Reached : Option ℕ → Option ℕ → Type 0
Reached none generation = generation ≡ none
Reached (some a) generation = NotAhead (some a) generation

pub NotAhead-bump :
    (read generation : Option ℕ) {g : ℕ}
    → bump_generation generation ≡ some g
    → NotAhead read generation
    → NotAhead read (some g)
unfolding bump_generation
NotAhead-bump none generation e h = tt
NotAhead-bump (some a) none e h = absurd h
NotAhead-bump (some a) (some g) e h = ground (arith, e, h)

pub Reached-bump :
    (read generation : Option ℕ) {g : ℕ}
    → bump_generation generation ≡ some g
    → Reached read generation
    → Reached read (some g)
unfolding bump_generation
Reached-bump none none e h = absurd (none-ne-some e)
Reached-bump none (some k) e h = absurd (none-ne-some (sym h))
Reached-bump (some a) generation e h = NotAhead-bump (some a) generation e h

pub Reached-self : (generation : Option ℕ) → Reached generation generation
Reached-self none = refl
Reached-self (some g) = omega arith

-- after a commit the process is behind
pub behind :
    (applied generation : Option ℕ) {g k : ℕ}
    → bump_generation generation ≡ some g
    → NotAhead applied generation
    → some g ≡ some k
    → applied ≡ some k
    → ⊥
unfolding bump_generation
behind none generation e h q r = none-ne-some r
behind (some a) none e h q r = h
behind (some a) (some g) e h q r = absurd (ground (arith, e, h, q, r))

-- and so is what a reload has read
pub behind_read :
    (read generation : Option ℕ) {g k : ℕ}
    → bump_generation generation ≡ some g
    → Reached read generation
    → some g ≡ some k
    → read ≡ some k
    → ⊥
behind_read none generation e h q r = none-ne-some r
behind_read (some a) generation e h q r = behind (some a) generation e h q r

-- where the process has the generation of the table, a reload has read it too
pub caught_up :
    (applied read generation : Option ℕ) {g : ℕ}
    → NotAhead applied read
    → Reached read generation
    → generation ≡ some g
    → applied ≡ some g
    → read ≡ some g
caught_up none read generation h k q r = absurd (none-ne-some r)
caught_up (some a) none generation h k q r = absurd h
caught_up (some a) (some b) none h k q r = absurd k
caught_up (some a) (some b) (some c) h k q r = ground (arith, h, k, q, r)

pub NotAhead-newer :
    (read applied generation : Option ℕ)
    → Reached read generation
    → NotAhead applied generation
    → NotAhead (newer_generation read applied) generation
NotAhead-newer none applied generation h k = k
NotAhead-newer (some g) applied generation h k = h

pub put_all :
    (P : Phase → Type 0) (who : Reloader) (p : Phase) (phases : Reloader → Phase)
    → P p
    → P (phases (other who))
    → (v : Reloader) → P (put who p phases v)
put_all P by_loop p phases h k by_loop = h
put_all P by_loop p phases h k by_request = k
put_all P by_request p phases h k by_loop = k
put_all P by_request p phases h k by_request = h

-- at most one reload is under way
abbrev pub Alone : (Reloader → Phase) → Type 0
Alone phases = (phases by_loop ≡ idle) ⊎ (phases by_request ≡ idle)

pub busy_other :
    (who : Reloader) (phases : Reloader → Phase)
    → Alone phases
    → phases who ≢ idle
    → phases (other who) ≡ idle
busy_other by_loop phases (inl e) busy = absurd (busy e)
busy_other by_loop phases (inr e) busy = e
busy_other by_request phases (inl e) busy = e
busy_other by_request phases (inr e) busy = absurd (busy e)

pub Alone-put :
    (who : Reloader) (p : Phase) (phases : Reloader → Phase)
    → phases (other who) ≡ idle
    → Alone (put who p phases)
Alone-put by_loop p phases e = inr e
Alone-put by_request p phases e = inl e
