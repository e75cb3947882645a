-- ===== src/Pages/Whole.antt =====
-- The listing loop against its meaning: the pages that the server serves, one after another.
use nfsclient.Base.{
  ℕ, zero, suc, ◌≤◌, ◌<◌, ◌≡◌, ap, ◌∙◌, refl, true, false, List, [], ◌∷◌, ◌++◌, append_assoc, arith,
}
use nfsclient.Errors.{ok, err, Exception}
use nfsclient.Exec.{Exec, ◌>>=◌}
use nfsclient.Pages.{Page, last_cookie, zero_verf, list_from, list_all}

-- Where a listing goes on after a page that was asked for from a cookie: behind the last of its
-- entries, whatever stands before that, and in the same place if it has none.
pub data GoesOn {E : Type 0} (cookie_of : E → ℕ) (cookie : ℕ) : List E → ℕ → Type 0 where
  no_entries : GoesOn cookie_of cookie [] cookie
  behind : (front : List E) (e : E) → GoesOn cookie_of cookie (front ++ (e ∷ [])) (cookie_of e)

last_cookie-append :
    {E : Type 0} (cookie_of : E → ℕ) (cookie : ℕ) (front : List E) (e : E)
    → last_cookie cookie_of cookie (front ++ (e ∷ [])) ≡ cookie_of e
last_cookie-append cookie_of cookie [] e = refl
last_cookie-append cookie_of cookie (x ∷ xs) e = last_cookie-append cookie_of (cookie_of x) xs e

last_cookie-GoesOn :
    {E : Type 0} {cookie_of : E → ℕ} {cookie next : ℕ} {es : List E}
    → GoesOn cookie_of cookie es next
    → last_cookie cookie_of cookie es ≡ next
last_cookie-GoesOn no_entries = refl
last_cookie-GoesOn {cookie_of = cookie_of} {cookie = cookie} (behind front e) =
    last_cookie-append cookie_of cookie front e

module _ {S E : Type 0} (cookie_of : E → ℕ) (ask : ℕ → List ℕ → Exec S (Page E)) where
  -- From a cookie and a verifier, the server serves the entries `es` in `n` pages: the last one is
  -- marked as such, and each next one is asked for behind the last entry of the page before it, with
  -- the verifier of that page.
  pub data Served : ℕ → ℕ → List ℕ → S → List E → S → Type 0 where
    last :
        {s s' : S} (cookie : ℕ) (verf : List ℕ) (page : Page E)
        → ask cookie verf s ≡ (ok page, s')
        → page.eof ≡ true
        → Served 1 cookie verf s page.entries s'
    next :
        {n after : ℕ} {s s' s'' : S} (cookie : ℕ) (verf : List ℕ) (page : Page E) {es : List E}
        → ask cookie verf s ≡ (ok page, s')
        → page.eof ≡ false
        → GoesOn cookie_of cookie page.entries after
        → Served n after page.cookieverf s' es s''
        → Served (suc n) cookie verf s (page.entries ++ es) s''

  Served-pos :
      {n cookie : ℕ} {verf : List ℕ} {s s' : S} {es : List E} → Served n cookie verf s es s' → 0 < n
  Served-pos (last cookie verf page e z) = omega arith
  Served-pos (next cookie verf page e z g r) = omega arith

  list_from-throws :
      (fuel cookie : ℕ) (verf : List ℕ) (all : List E) {s s' : S} {x : Exception}
      → ask cookie verf s ≡ (err x, s')
      → list_from cookie_of ask (suc fuel) cookie verf all s ≡ (err x, s')
  unfolding list_from ◌>>=◌
  list_from-throws fuel cookie verf all e = rw e

  list_from-ends :
      (fuel cookie : ℕ) (verf : List ℕ) (all : List E) {s s' : S} (page : Page E)
      → ask cookie verf s ≡ (ok page, s')
      → page.eof ≡ true
      → list_from cookie_of ask (suc fuel) cookie verf all s ≡ (ok (all ++ page.entries), s')
  unfolding list_from ◌>>=◌
  list_from-ends fuel cookie verf all page e z = rw (e, z)

  list_from-GoesOn :
      (fuel cookie after : ℕ) (verf : List ℕ) (all : List E) {s s' : S} (page : Page E)
      → ask cookie verf s ≡ (ok page, s')
      → page.eof ≡ false
      → GoesOn cookie_of cookie page.entries after
      → list_from cookie_of ask (suc fuel) cookie verf all s
        ≡ list_from cookie_of ask fuel after page.cookieverf (all ++ page.entries) s'
  unfolding list_from ◌>>=◌
  list_from-GoesOn fuel cookie after verf all page e z g = rw (e, z, last_cookie-GoesOn g) refl

  list_from-Served :
      {n cookie : ℕ} {verf : List ℕ} {s s' : S} {es : List E}
      → Served n cookie verf s es s'
      → (fuel : ℕ) (all : List E) → n ≤ fuel
      → list_from cookie_of ask fuel cookie verf all s ≡ (ok (all ++ es), s')
  list_from-Served r zero all le = absurd (omega (arith, Served-pos r))
  list_from-Served (last cookie verf page e z) (suc fuel) all le =
      list_from-ends fuel cookie verf all page e z
  list_from-Served (next {n = n} {after = after} {s'' = s''} cookie verf page {es = es} e z g r)
        (suc fuel) all le =
      list_from-GoesOn fuel cookie after verf all page e z g
      ∙ list_from-Served {n = n} r fuel (all ++ page.entries) (omega arith)
      ∙ ap (λ t. (ok t, s'')) (append_assoc all page.entries es)

  -- The listing is what the server serves from the start: if the pages that follow one another from
  -- cookie 0 and the zero verifier, each asked for with the cookie of the last entry before it and the
  -- verifier of the page before it, are `n`, up to one that says `eof`, then with fuel `n` or more the
  -- loop returns all their entries in order, each page asked for once.
  pub list_all-Served :
      {n : ℕ} {s s' : S} {es : List E}
      → Served n 0 zero_verf s es s'
      → (fuel : ℕ) → n ≤ fuel
      → list_all cookie_of ask fuel s ≡ (ok es, s')
  unfolding list_all
  list_all-Served r fuel le = list_from-Served r fuel [] le

  -- The `n`-th page asked for throws, after pages that did not end the listing.
  pub data Broken : ℕ → ℕ → List ℕ → S → Exception → S → Type 0 where
    at :
        {s s' : S} (cookie : ℕ) (verf : List ℕ) (x : Exception)
        → ask cookie verf s ≡ (err x, s')
        → Broken 1 cookie verf s x s'
    later :
        {n after : ℕ} {s s' s'' : S} (cookie : ℕ) (verf : List ℕ) (page : Page E) (x : Exception)
        → ask cookie verf s ≡ (ok page, s')
        → page.eof ≡ false
        → GoesOn cookie_of cookie page.entries after
        → Broken n after page.cookieverf s' x s''
        → Broken (suc n) cookie verf s x s''

  list_from-Broken :
      {n cookie : ℕ} {verf : List ℕ} {s s' : S} {x : Exception}
      → Broken n cookie verf s x s'
      → (fuel : ℕ) (all : List E) → n ≤ fuel
      → list_from cookie_of ask fuel cookie verf all s ≡ (err x, s')
  list_from-Broken (at cookie verf x e) zero all le = absurd (omega arith)
  list_from-Broken (later cookie verf page x e z g r) zero all le = absurd (omega arith)
  list_from-Broken (at cookie verf x e) (suc fuel) all le = list_from-throws fuel cookie verf all e
  list_from-Broken (later {after = after} cookie verf page x e z g r) (suc fuel) all le =
      list_from-GoesOn fuel cookie after verf all page e z g
      ∙ list_from-Broken r fuel (all ++ page.entries) (omega arith)

  -- A server whose pages go on up to one that throws, the `n`-th, makes the listing throw the same
  -- exception, in the state the page left; with fuel `n` or more.
  pub list_all-Broken :
      {n : ℕ} {s s' : S} {x : Exception}
      → Broken n 0 zero_verf s x s'
      → (fuel : ℕ) → n ≤ fuel
      → list_all cookie_of ask fuel s ≡ (err x, s')
  unfolding list_all
  list_all-Broken r fuel le = list_from-Broken r fuel [] le
