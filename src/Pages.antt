-- ===== src/Pages.antt =====
-- Listing a directory page by page, the loop of `nfs3::readdir`, `nfs3::readdirplus`,
-- `Nfs4Client::readdir` and `Nfs41Client::readdir`: ask for a page from a cookie and a verifier,
-- keep its entries, go on from the last entry's cookie and the page's verifier, until `eof`.
pub mod Whole
use nfsclient.Base.{ℕ, zero, suc, Bool, true, false, List, [], ◌∷◌, ◌++◌, replicate}
use nfsclient.Errors.{Result, fault, Fault}
use nfsclient.Exec.{Exec, pure, ◌>>=◌}

-- One page, with the entries of any version of the protocol.
pub record Page (E : Type 0) : Type 0 where
  pub entries : List E
  pub eof : Bool
  pub cookieverf : List ℕ

-- The cookie of the last entry, or the cookie before if there is none.
abbrev pub last_cookie : {E : Type 0} → (E → ℕ) → ℕ → List E → ℕ
last_cookie cookie_of cookie [] = cookie
last_cookie cookie_of cookie (e ∷ es) = last_cookie cookie_of (cookie_of e) es

abbrev pub zero_verf : List ℕ
zero_verf = replicate 8 0

module _ {S E : Type 0} (cookie_of : E → ℕ) (ask : ℕ → List ℕ → Exec S (Page E)) where
  -- One round of the `for (;;)` for each unit of fuel.
  unfoldable pub list_from : ℕ → ℕ → List ℕ → List E → Exec S (List E)
  list_from zero cookie cookieverf all = λ s. (fault Fault.out_of_fuel, s)
  list_from (suc fuel) cookie cookieverf all = do
    page ← ask cookie cookieverf
    let all' = all ++ page.entries
    let more : Exec S (List E) =
        list_from fuel (last_cookie cookie_of cookie page.entries) page.cookieverf all'
    elim page.eof [ true ↦ pure all' | false ↦ more ]

  unfoldable pub list_all : ℕ → Exec S (List E)
  unfolding list_from
  list_all fuel = list_from fuel 0 zero_verf []
