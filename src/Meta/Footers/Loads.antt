-- ===== src/Meta/Footers/Loads.antt =====
-- src/meta.rs, `load`: calls of any threads over the one cache. A call takes the cache's lock twice,
-- and the others may move between the two.
use Prim.Native.String.{String}
use parquet_interop.Prelude.{
  ◌≡◌, Bool, Option, none, some, List, [], ◌∷◌, if◌then◌else◌, Result, ok, err,
}
use parquet_interop.Prelude.Crew.{Change}
use parquet_interop.Meta.Footers.{
  Key, FooterLib, Src, Footer, Footers, make_src, find_footer, parse_footer, store_footer,
}

-- A call for an open file with its identity.
pub record Request : Type 0 where
  pub orig : String
  pub who : String
  pub key : Key

-- The content of a file is taken to be fixed by its path, device, inode, size and mtime.
module _ (lib : FooterLib) (content : Key → lib.File) where
  -- Where a call is: ahead of the cache, behind a miss, with a good footer ahead of the cache, or
  -- back with its answer.
  pub data Loader : Type 0 where
    looking : Loader
    parsing : Loader
    storing : Footer lib → Loader
    back : Result (Src lib) → Loader

  -- Behind the first look into the cache.
  unfoldable pub looked : Request → Option (Footer lib) × Footers lib → Loader × Footers lib
  looked q (some footer, c) = (back (ok (make_src lib q.orig q.key.path footer)), c)
  looked q (none, c) = (parsing, c)

  -- Behind the parse: only a good footer is stored.
  unfoldable pub checked : Result (Footer lib) → Loader
  checked (err e) = back (err e)
  checked (ok footer) = storing footer

  -- A step of a call with the cache. The parts under the lock are left out if it is poisoned.
  unfoldable pub load_step : Request → Bool → Loader → Footers lib → Option (Loader × Footers lib)
  unfolding looked checked
  load_step q locked looking c =
      some (if locked then looked q (find_footer lib q.key c) else (parsing, c))
  load_step q locked parsing c =
      some (checked (parse_footer lib q.who q.key.path (content q.key)), c)
  load_step q locked (storing footer) c = some (
    back (ok (make_src lib q.orig q.key.path footer)),
    if locked then store_footer lib q.key footer c else c,
  )
  load_step q locked (back r) c = none

  pub record Process : Type 0 where
    pub footers : Footers lib
    pub loads : List (Request × Loader)

  -- A call begins, or one moves.
  pub data Step (s t : Process) : Type 0 where
    call : (q : Request) → t.footers ≡ s.footers → t.loads ≡ (q, looking) ∷ s.loads → Step s t
    move :
        (q : Request) (locked : Bool) (l l' : Loader)
        → load_step q locked l s.footers ≡ some (l', t.footers)
        → Change (q, l) (q, l') s.loads t.loads
        → Step s t

  -- What a process can come to.
  pub data Reach : Process → Type 0 where
    begin : Reach (record { footers = []; loads = [] })
    next : {s t : Process} → Reach s → Step s t → Reach t
