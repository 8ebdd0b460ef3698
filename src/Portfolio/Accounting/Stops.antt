-- ===== src/Portfolio/Accounting/Stops.antt =====
-- No fill gives a position a stop.
use crypto_ai_trader.Base.{List, [], ◌∷◌, All, ◌≡◌, refl, none, some, String}
use crypto_ai_trader.Base.Dict.{Dict, lookup}
use crypto_ai_trader.Execution.PaperExecutor.{PaperFill}
use crypto_ai_trader.Portfolio.Accounting.{Position, PortfolioAccount, replay}
use crypto_ai_trader.Portfolio.Accounting.Kept.{Holds, lookup-Holds, replay-Holds}

-- No position has a stop.
abbrev pub HasNoStop : Position → Type 0
HasNoStop p = p.stop_reference ≡ none

All-any {ℓ} : {A : Type ℓ} (xs : List A) → All (λ x. Unit {0}) xs
All-any [] = tt
All-any (x ∷ xs) = (tt, All-any xs)

-- An account that is rebuilt from fills has no stops if it had none before.
pub replay-HasNoStop :
    (fills : List PaperFill) (a : PortfolioAccount)
    → Holds HasNoStop a.positions
    → Holds HasNoStop (replay fills a).0.positions
replay-HasNoStop fills a =
    replay-Holds HasNoStop (λ f. Unit {0}) (λ f h. refl) (λ f p h held. held)
      (λ f p average fees h held. held) (λ f p fees kept held. held) fills a (All-any fills)

-- Neither has any position that is looked up in such an account.
pub lookup-HasNoStop :
    (symbol : String) (ps : Dict Position)
    → Holds HasNoStop ps
    → (p : Position) → lookup symbol ps ≡ some p
    → HasNoStop p
lookup-HasNoStop symbol ps hs p found = lookup-Holds HasNoStop symbol ps hs found
