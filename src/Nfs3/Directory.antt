-- ===== src/Nfs3/Directory.antt =====
-- The whole directory: `nfs3::readdir` of src/nfs/readdir.cpp and `nfs3::readdirplus` of
-- src/nfs/readdirplus.cpp, which fetch page after page.
use nfsclient.Base.{ℕ, List}
use nfsclient.Exec.{Exec, pure, ◌>>=◌}
use nfsclient.Pages.{Page, list_all}
use nfsclient.Rpc.Transport.{Transport}
use nfsclient.Nfs3.Types.{Fh3}
use nfsclient.Nfs3.Listing.{DirEntry3, ReaddirPage, DirEntryPlus3, ReaddirplusPage}
use nfsclient.Nfs3.Calls.{readdir_page, readdirplus_page}

module _ (t : Transport) where
  open t use {Conn}

  abbrev pub page_of : ReaddirPage → Page DirEntry3
  page_of p = record { entries = p.entries; eof = p.eof; cookieverf = p.cookieverf }

  abbrev pub pageplus_of : ReaddirplusPage → Page DirEntryPlus3
  pageplus_of p = record { entries = p.entries; eof = p.eof; cookieverf = p.cookieverf }

  abbrev pub cookie_of : DirEntry3 → ℕ
  cookie_of e = e.cookie

  abbrev pub cookieplus_of : DirEntryPlus3 → ℕ
  cookieplus_of e = e.cookie

  abbrev pub ask : Fh3 → ℕ → ℕ → List ℕ → Exec Conn (Page DirEntry3)
  ask dir count cookie verf = do p ← readdir_page t dir cookie verf count; pure (page_of p)

  abbrev pub askplus : Fh3 → ℕ → ℕ → ℕ → List ℕ → Exec Conn (Page DirEntryPlus3)
  askplus dir dircount maxcount cookie verf = do
    p ← readdirplus_page t dir cookie verf dircount maxcount
    pure (pageplus_of p)

  unfoldable pub readdir : ℕ → Fh3 → ℕ → Exec Conn (List DirEntry3)
  readdir fuel dir count = list_all cookie_of (ask dir count) fuel

  unfoldable pub readdirplus : ℕ → Fh3 → ℕ → ℕ → Exec Conn (List DirEntryPlus3)
  readdirplus fuel dir dircount maxcount =
      list_all cookieplus_of (askplus dir dircount maxcount) fuel
