-- ===== src/Agent/Loop/Outcome.antt =====
-- The loop of `main` in src/main.c: results that are there, and how much the turns bring.
use if_flow.Base.{ℕ, ◌+◌, ◌^◌, ◌<◌, List, [], ◌∷◌, length}
use if_flow.Parser.Reads.{Parse, fault, starved, absent, ok, ◌>>=◌, Gives}
use if_flow.Agent.{App}
use if_flow.Agent.Loop.{Captured, Turn, settle}

-- A result is there, and it has the property.
abbrev pub Ends {ℓ} : {A : Type ℓ} → (A → Type 0) → Parse A → Type 0
Ends P fault = ⊥
Ends P starved = ⊥
Ends P absent = ⊥
Ends P (ok a) = P a

pub Ends-bind {ℓ κ} :
    {A : Type ℓ} {B : Type κ} (P : A → Type 0) (Q : B → Type 0) (m : Parse A) (f : A → Parse B)
    → Ends P m
    → ((a : A) → P a → Ends Q (f a))
    → Ends Q (m >>= f)
Ends-bind P Q fault f h k = h
Ends-bind P Q starved f h k = h
Ends-bind P Q absent f h k = absurd h
Ends-bind P Q (ok a) f h k = k a h

pub Ends-settle :
    (P : App → Type 0) (app : App) (m : Parse App) → P app → Gives P m → Ends P (settle app m)
Ends-settle P app fault d h = h
Ends-settle P app starved d h = h
Ends-settle P app absent d h = d
Ends-settle P app (ok a) d h = h

-- Packets have fewer than 2 ^ 64 bytes.
abbrev pub IsCaptured : Captured → Type 0
IsCaptured c = length c.bytes < 2 ^ 64

abbrev pub packets_in : List Turn → ℕ
packets_in [] = 0
packets_in (t ∷ ts) = length t.packets + packets_in ts

abbrev pub events_in : List Turn → ℕ
events_in [] = 0
events_in (t ∷ ts) = length t.events + events_in ts

-- What the turns bring leaves the sizes of the caches far from overflow.
pub record IsBudget (ts : List Turn) (app : App) : Type 0 where
  pub packets : length app.resolver.entries + packets_in ts < 2 ^ 62
  pub events : length app.ebpf.entries + events_in ts < 2 ^ 62
