-- ===== src/Tests/Formats.antt =====
-- src/xdr at small inputs, and the listing loop.
use nfsclient.Base.{
  ℕ, zero, suc, ◌+◌, ◌%◌, ◌^◌, ◌≡◌, refl, true, false, List, [], ◌∷◌, ◌++◌, length, arith,
}
use nfsclient.Errors.{ok, err, Reason, Exception}
use nfsclient.Exec.{Exec}
use nfsclient.Xdr.Encoder.{encoded, put_uint32, put_string, put_opaque, push_zeros}
use nfsclient.Xdr.Decoder.{
  run, get_string, get_opaque, get_uint32, require, load, advance, copy_range, join32, ◌>>=◌,
}
use nfsclient.Xdr.RoundTrip.{Item, put_items, get_items, get_items-put_items, length-put_items}
use nfsclient.Pages.{Page, zero_verf, list_all}
use nfsclient.Pages.Whole.{GoesOn, Served, Broken, list_all-Served, list_all-Broken}

abbrev items : List Item
items =
    Item.word 7
    ∷ Item.text (97 ∷ 98 ∷ [])
    ∷ Item.hyper (2 ^ 32 + 5)
    ∷ Item.fixed (1 ∷ 2 ∷ 3 ∷ [])
    ∷ Item.bytes []
    ∷ []

get_items-put_items_example :
    run (get_items items) (encoded (put_items items) ++ (255 ∷ [])) ≡ ok items
get_items-put_items_example =
    get_items-put_items items (255 ∷ [])
      (omega arith, (omega arith, (omega arith, (tt, (omega arith, tt)))))

length-put_items_example : length (encoded (put_items items)) % 4 ≡ 0
length-put_items_example =
    length-put_items items (omega arith, (omega arith, (omega arith, (tt, (omega arith, tt)))))

-- Two bytes of a string are padded to four.
padded : encoded (put_string (97 ∷ 98 ∷ [])) ≡ 0 ∷ 0 ∷ 0 ∷ 2 ∷ 97 ∷ 98 ∷ 0 ∷ 0 ∷ []
unfolding put_string put_opaque put_uint32 push_zeros
padded = refl

-- A string that says it is longer than the buffer.
too_short :
    run get_string (0 ∷ 0 ∷ 0 ∷ 9 ∷ 97 ∷ []) ≡ err (Exception.runtime_error Reason.buffer_underflow)
unfolding get_string get_opaque get_uint32 require load advance copy_range join32 ◌>>=◌
too_short = refl

-- A server with three entries, two on the first page; the state counts the requests.
abbrev ask : ℕ → List ℕ → Exec ℕ (Page ℕ)
ask zero verf n = (ok (record { entries = 10 ∷ 20 ∷ []; eof = false; cookieverf = 1 ∷ [] }), n + 1)
ask (suc k) verf n = (ok (record { entries = 30 ∷ []; eof = true; cookieverf = 1 ∷ [] }), n + 1)

abbrev self : ℕ → ℕ
self c = c

list_all-Served_example : list_all self ask 4 0 ≡ (ok (10 ∷ 20 ∷ 30 ∷ []), 2)
list_all-Served_example =
    list_all-Served self ask
      (Served.next 0 zero_verf (record { entries = 10 ∷ 20 ∷ []; eof = false; cookieverf = 1 ∷ [] })
        refl refl (GoesOn.behind (10 ∷ []) 20)
        (Served.last 20 (1 ∷ []) (record { entries = 30 ∷ []; eof = true; cookieverf = 1 ∷ [] })
          refl refl))
      4 (omega arith)

-- The same server, with a directory that changes under the listing.
abbrev stale : ℕ → List ℕ → Exec ℕ (Page ℕ)
stale zero verf n =
    (ok (record { entries = 10 ∷ 20 ∷ []; eof = false; cookieverf = 1 ∷ [] }), n + 1)
stale (suc k) verf n = (err (Exception.nfs_error 10003 "READDIR"), n + 1)

list_all-Broken_example : list_all self stale 2 0 ≡ (err (Exception.nfs_error 10003 "READDIR"), 2)
list_all-Broken_example =
    list_all-Broken self stale
      (Broken.later 0 zero_verf
        (record { entries = 10 ∷ 20 ∷ []; eof = false; cookieverf = 1 ∷ [] }) _ refl refl
        (GoesOn.behind (10 ∷ []) 20) (Broken.at 20 (1 ∷ []) _ refl))
      2 (omega arith)
