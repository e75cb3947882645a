-- ===== src/Nfs3/Requests/Names.antt =====
-- Arguments of the procedures on directories: `diropargs3` and what follows it.
use nfsclient.Base.{ℕ, ◌≡◌, ◌∙◌, sym, ap, append-nil, List, [], length, ◌==◌, if◌then◌else◌, arith}
use nfsclient.Errors.{ok}
use nfsclient.Xdr.Encoder.{Enc, ◌⨾◌, encoded, put_uint32, put_string}
use nfsclient.Xdr.Decoder.{Decode, pure, run, ◌>>=◌, get_uint32, get_string, get_fixed_opaque}
use nfsclient.Xdr.Wire.{IsU32, Fits32}
use nfsclient.Xdr.Carries.{
  Carries, Carries-uint32, Carries-string, Carries-fixed_opaque, Carries-bind, Carries-last,
  run-Carries,
}
use nfsclient.Nfs3.Types.{Fh3, Ftype3, ftype3, Sattr3, encode_fh3, encode_sattr3}
use nfsclient.Nfs3.Types.Wire.{IsFh}
use nfsclient.Nfs3.Names.{
  CreateMode3, create_mode3, DeviceSpec3, encode_create_args, encode_create_args_exclusive,
  encode_mknod_args, encode_mkdir_args, encode_symlink_args, encode_mknod_device_args,
  encode_remove_args, encode_rmdir_args, encode_rename_args, encode_link_args,
}
use nfsclient.Nfs3.Files.{encode_lookup_args}
use nfsclient.Nfs3.Requests.{
  Changes, read_fh, read_sattr, changes, IsSattr, Carries-fh, Carries-sattr,
}

-- `diropargs3`: a directory and a name.
pub read_dirop : Decode (Fh3 × List ℕ)
read_dirop = do dir ← read_fh; name ← get_string; pure (dir, name)

-- `createhow3`: the attributes, or a verifier in their place.
pub data CreateHow : Type 0 where
  unchecked guarded : Changes → CreateHow
  exclusive : List ℕ → CreateHow
  unknown : ℕ → CreateHow

read_how : ℕ → Decode CreateHow
read_how mode =
    if mode == 0
    then (read_sattr >>= λ attrs. pure (CreateHow.unchecked attrs))
    else if mode == 1
    then (read_sattr >>= λ attrs. pure (CreateHow.guarded attrs))
    else if mode == 2
    then (get_fixed_opaque 8 >>= λ verf. pure (CreateHow.exclusive verf))
    else pure (CreateHow.unknown mode)

pub read_create : Decode (Fh3 × List ℕ × CreateHow)
unfolding read_how
read_create = do
  dir ← read_fh
  name ← get_string
  mode ← get_uint32
  how ← read_how mode
  pure (dir, name, how)

pub read_mkdir : Decode (Fh3 × List ℕ × Changes)
read_mkdir = do dir ← read_fh; name ← get_string; attrs ← read_sattr; pure (dir, name, attrs)

pub read_symlink : Decode (Fh3 × List ℕ × Changes × List ℕ)
read_symlink = do
  dir ← read_fh
  name ← get_string
  attrs ← read_sattr
  target ← get_string
  pure (dir, name, attrs, target)

-- `mknoddata3`: attributes and numbers for a device, attributes alone for a socket or a FIFO.
pub data NodeData : Type 0 where
  block_device char_device : Changes → ℕ → ℕ → NodeData
  socket fifo : Changes → NodeData
  other_type : ℕ → NodeData

read_device : (Changes → ℕ → ℕ → NodeData) → Decode NodeData
read_device make = do
  attrs ← read_sattr
  specdata1 ← get_uint32
  specdata2 ← get_uint32
  pure (make attrs specdata1 specdata2)

read_node : ℕ → Decode NodeData
unfolding read_device
read_node type =
    if type == 3
    then read_device NodeData.block_device
    else if type == 4
    then read_device NodeData.char_device
    else if type == 6
    then (read_sattr >>= λ attrs. pure (NodeData.socket attrs))
    else if type == 7
    then (read_sattr >>= λ attrs. pure (NodeData.fifo attrs))
    else pure (NodeData.other_type type)

pub read_mknod : Decode (Fh3 × List ℕ × NodeData)
unfolding read_node
read_mknod = do
  dir ← read_fh
  name ← get_string
  type ← get_uint32
  node ← read_node type
  pure (dir, name, node)

pub read_rename : Decode (Fh3 × List ℕ × Fh3 × List ℕ)
read_rename = do
  from_dir ← read_fh
  from_name ← get_string
  to_dir ← read_fh
  to_name ← get_string
  pure (from_dir, from_name, to_dir, to_name)

pub read_link : Decode (Fh3 × Fh3 × List ℕ)
read_link = do file ← read_fh; dir ← read_fh; name ← get_string; pure (file, dir, name)

-- Nothing stands behind the arguments.
pub exactly :
    {A : Type 0} {f : Enc} {m : Decode A} {a : A} → Carries f m a → run m (encoded f) ≡ ok a
exactly {f = f} {m} c = ap (run m) (sym (append-nil (encoded f))) ∙ run-Carries [] c

Carries-device :
    (s : Sattr3) (spec : DeviceSpec3)
    → IsSattr s
    → IsU32 spec.major_num
    → IsU32 spec.minor_num
    → (make : Changes → ℕ → ℕ → NodeData)
    → Carries
        (encode_sattr3 s ⨾ (put_uint32 spec.major_num ⨾ put_uint32 spec.minor_num))
        (read_device make)
        (make (changes s) spec.major_num spec.minor_num)
unfolding read_device
Carries-device s spec hs hmaj hmin make =
    Carries-bind _ (Carries-sattr s hs)
      (Carries-bind _ (Carries-uint32 _ hmaj) (Carries-last _ (Carries-uint32 _ hmin)))

-- A directory, a name, a word, and what is read by that word.
exactly_tagged :
    {A : Type 0} {g : Enc} {a : A} (dir : Fh3) (name : List ℕ) (tag : ℕ) (m : ℕ → Decode A)
    → IsFh dir
    → Fits32 name
    → IsU32 tag
    → Carries g (m tag) a
    → run {A = Fh3 × List ℕ × A}
        (read_fh >>= λ d. get_string >>= λ n. get_uint32 >>= λ t. m t >>= λ x. pure (d, n, x))
        (encoded (encode_fh3 dir ⨾ put_string name ⨾ put_uint32 tag ⨾ g))
      ≡ ok (dir, name, a)
exactly_tagged dir name tag m hd hn ht c = exactly (
    Carries-bind _ (Carries-fh dir hd) (
      Carries-bind _ (Carries-string name hn)
        (Carries-bind _ (Carries-uint32 tag ht) (Carries-last _ c))))

-- A server that reads the arguments of CREATE, MKDIR, SYMLINK and MKNOD by RFC 1813 finds the
-- directory, the name, and just those attributes whose flags are set, with the target of a link, the
-- mode of a CREATE, UNCHECKED or GUARDED, and the type of a node, with its device numbers for a block or
-- a character device and none for a socket or a FIFO; of a CREATE that `encode_create_args_exclusive`
-- encodes, the mode EXCLUSIVE and the verifier in place of attributes. For handles, names and targets
-- shorter than 2 ^ 32 bytes, a verifier of 8 bytes and words in the range of their C++ types.
pub encode_args-create :
    (dir : Fh3) (name target verf : List ℕ) (s : Sattr3) (spec : DeviceSpec3)
    → IsFh dir
    → Fits32 name
    → Fits32 target
    → length verf ≡ 8
    → IsSattr s
    → IsU32 spec.major_num × IsU32 spec.minor_num
    → (run read_create (encode_create_args dir name CreateMode3.unchecked s)
        ≡ ok (dir, name, CreateHow.unchecked (changes s)))
      × (run read_create (encode_create_args dir name CreateMode3.guarded s)
          ≡ ok (dir, name, CreateHow.guarded (changes s)))
      × (run read_create (encode_create_args_exclusive dir name verf)
          ≡ ok (dir, name, CreateHow.exclusive verf))
      × (run read_mkdir (encode_mkdir_args dir name s) ≡ ok (dir, name, changes s))
      × (run read_symlink (encode_symlink_args dir name target s)
          ≡ ok (dir, name, changes s, target))
      × (run read_mknod (encode_mknod_device_args dir name Ftype3.blk s spec)
          ≡ ok (dir, name, NodeData.block_device (changes s) spec.major_num spec.minor_num))
      × (run read_mknod (encode_mknod_device_args dir name Ftype3.chr s spec)
          ≡ ok (dir, name, NodeData.char_device (changes s) spec.major_num spec.minor_num))
      × (run read_mknod (encode_mknod_args dir name Ftype3.sock s)
          ≡ ok (dir, name, NodeData.socket (changes s)))
      × (run read_mknod (encode_mknod_args dir name Ftype3.fifo s)
          ≡ ok (dir, name, NodeData.fifo (changes s)))
unfolding encode_create_args encode_create_args_exclusive encode_mkdir_args encode_symlink_args
    encode_mknod_args encode_mknod_device_args create_mode3 ftype3 read_create read_how read_mkdir
    read_symlink read_mknod read_node read_device
encode_args-create dir name target verf s spec hd hn ht hv hs (hmaj, hmin) =
    let cd = Carries-fh dir hd in
    let cn = Carries-string name hn in
    let ca = Carries-sattr s hs in
    let device = Carries-device s spec hs hmaj hmin in
    (
      exactly_tagged dir name 0 read_how hd hn (omega arith) (Carries-last CreateHow.unchecked ca),
      exactly_tagged dir name 1 read_how hd hn (omega arith) (Carries-last CreateHow.guarded ca),
      exactly_tagged dir name 2 read_how hd hn (omega arith)
          (Carries-last CreateHow.exclusive (Carries-fixed_opaque 8 verf hv)),
      exactly (Carries-bind _ cd (Carries-bind _ cn (Carries-last _ ca))),
      exactly (
          Carries-bind _ cd
            (Carries-bind _ cn (Carries-bind _ ca (Carries-last _ (Carries-string target ht))))),
      exactly_tagged dir name 3 read_node hd hn (omega arith) (device NodeData.block_device),
      exactly_tagged dir name 4 read_node hd hn (omega arith) (device NodeData.char_device),
      exactly_tagged dir name 6 read_node hd hn (omega arith) (Carries-last NodeData.socket ca),
      exactly_tagged dir name 7 read_node hd hn (omega arith) (Carries-last NodeData.fifo ca),
    )

-- A server that reads the arguments of LOOKUP, REMOVE, RMDIR, RENAME and LINK by RFC 1813 finds the
-- handles and names that were given, each in its place; for handles and names shorter than 2 ^ 32
-- bytes.
pub encode_args-names :
    (dir dir' : Fh3) (name name' : List ℕ)
    → IsFh dir × IsFh dir'
    → Fits32 name × Fits32 name'
    → (run read_dirop (encode_lookup_args dir name) ≡ ok (dir, name))
      × (run read_dirop (encode_remove_args dir name) ≡ ok (dir, name))
      × (run read_dirop (encode_rmdir_args dir name) ≡ ok (dir, name))
      × (run read_rename (encode_rename_args dir name dir' name') ≡ ok (dir, name, dir', name'))
      × (run read_link (encode_link_args dir dir' name) ≡ ok (dir, dir', name))
unfolding encode_lookup_args encode_remove_args encode_rmdir_args encode_rename_args
    encode_link_args read_dirop read_rename read_link
encode_args-names dir dir' name name' (hd, hd') (hn, hn') =
    let cd = Carries-fh dir hd in
    let cd' = Carries-fh dir' hd' in
    let cn = Carries-string name hn in
    let cn' = Carries-string name' hn' in
    (
      exactly (Carries-bind _ cd (Carries-last _ cn)),
      exactly (Carries-bind _ cd (Carries-last _ cn)),
      exactly (Carries-bind _ cd (Carries-last _ cn)),
      exactly (Carries-bind _ cd (Carries-bind _ cn (Carries-bind _ cd' (Carries-last _ cn')))),
      exactly (Carries-bind _ cd (Carries-bind _ cd' (Carries-last _ cn))),
    )
