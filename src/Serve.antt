-- ===== src/Serve.antt =====
-- The requests that the file server answers: fs/serv.c. `opentab` is the table of open files, `filefds` what lies
-- on the page of each entry, and `refs` the references that the kernel counts to that page: they change between
-- two requests, when clients map and unmap it. `sent` are the answers by `ipc_send`, the latest first.
pub mod Answers
pub mod Opens
pub mod Tests
use buaa_os.Prelude.{
  ℕ, zero, suc, ◌+◌, ◌/◌, ◌%◌, ◌^◌, Bool, true, false, not, ◌||◌, Option, none, some, List, [], ◌∷◌,
  leb, ◌==◌, if◌then◌else◌, update,
}
use buaa_os.Prelude.Outcome.{
  Outcome, Cmd, Errno, e_inval, e_max_open, done, fail, panic, pure, throw, halt, skip, ◌>>=◌, ◌>>◌,
  reads, modify, within,
}
use buaa_os.Memory.{u32}
use buaa_os.Fs.{Fs, Answer}
use buaa_os.Fs.Data.{File, FileRef, blank_file, by2blk}
use buaa_os.Fs.Files.{
  get_file, set_file, file_get_block, file_set_size, file_close, file_dirty, fs_sync,
}
use buaa_os.Fs.Dirs.{file_open, file_create, file_remove}

pub record Open : Type 0 where
  pub o_file : Option FileRef
  pub o_fileid : ℕ
  pub o_mode : ℕ

pub record Filefd : Type 0 where
  pub f_file : File
  pub f_fileid : ℕ
  pub fd_omode : ℕ
  pub fd_dev_id : ℕ

abbrev pub blank_filefd : Filefd
blank_filefd = record { f_file = blank_file; f_fileid = 0; fd_omode = 0; fd_dev_id = 0 }

-- The value of an answer: 0, an error, or the word that `open_alloc` returned.
pub data Value : Type 0 where
  zero_value : Value
  error : Errno → Value
  word : ℕ → Value

-- The page of an answer: none, that of an open file, or a block.
pub data Page : Type 0 where
  no_page : Page
  filefd_page : ℕ → Page
  block_page : ℕ → Page

pub record Sent : Type 0 where
  pub to : ℕ
  pub value : Value
  pub page : Page

pub record Server : Type 0 where
  pub fs : Fs
  pub opentab : ℕ → Open
  pub filefds : ℕ → Filefd
  pub refs : ℕ → ℕ
  pub sent : List Sent

abbrev pub maxopen : ℕ
maxopen = 1024

-- The `dev_id` of `devfile`.
abbrev pub file_dev_id : ℕ
file_dev_id = b'f'

abbrev pub on_fs {ℓ} : {A : Type ℓ} → Cmd Fs A → Cmd Server A
on_fs = within (λ s. s.fs) (λ s f. record s { fs = f })

abbrev pub ipc_send : ℕ → Value → Page → Cmd Server (Unit {0})
ipc_send envid v p =
    modify λ s. record s { sent = record { to = envid; value = v; page = p } ∷ s.sent }

-- The loop of `serve_init`.
pub init_from : ℕ → ℕ → Cmd Server (Unit {0})
init_from zero i = skip
init_from (suc rounds) i =
    let rest = init_from rounds (i + 1) in
    do
      modify λ s. record s { opentab = update s.opentab i (record (s.opentab i) { o_fileid = i }) }
      rest

pub serve_init : Cmd Server (Unit {0})
unfolding init_from
serve_init = init_from maxopen 0

-- What the kernel answers to `syscall_mem_alloc` of the page of an entry is a parameter.
pub grant : Option Errno → ℕ → Cmd Server (Unit {0})
grant (some e) i = throw e
grant none i = modify λ s. record s { refs = update s.refs i 1 }

-- The `case 1`.
pub take_open : ℕ → Cmd Server ℕ
take_open i = do
  modify λ s. record s {
    opentab =
        update s.opentab i
          (record (s.opentab i) { o_fileid = u32 ((s.opentab i).o_fileid + maxopen) });
    filefds = update s.filefds i blank_filefd;
  }
  pure i

pub open_from : (Server → ℕ → Option Errno) → ℕ → ℕ → Cmd Server ℕ
unfolding grant take_open
open_from alloc zero i = throw e_max_open
open_from alloc (suc rounds) i =
    let rest = open_from alloc rounds (i + 1) in
    do
      r ← reads λ s. s.refs i
      if r == 0
          then (do λ s. grant (alloc s i) i s; take_open i)
          else if r == 1
          then take_open i
          else rest

-- The index of the entry; the source returns its `o_fileid`.
pub open_alloc : (Server → ℕ → Option Errno) → Cmd Server ℕ
unfolding open_from
open_alloc alloc = open_from alloc maxopen 0

pub open_lookup : ℕ → Cmd Server ℕ
open_lookup fileid = do
  r ← reads λ s. s.refs (fileid % maxopen)
  o ← reads λ s. s.opentab (fileid % maxopen)
  if r == 1 || not (o.o_fileid == fileid) then throw e_inval else pure (fileid % maxopen)

-- `o->o_file`, a fault through NULL.
pub opened_file : Option FileRef → Cmd Server FileRef
opened_file none = halt
opened_file (some f) = pure f

pub file_of : ℕ → Cmd Server FileRef
unfolding opened_file
file_of i = do o ← reads λ s. s.opentab i; opened_file o.o_file

-- An error is sent, and ends the request.
pub answering {ℓ} :
    {A : Type ℓ} → ℕ → Outcome Server A → (A → Cmd Server (Unit {0})) → Outcome Server (Unit {0})
answering envid (done a s) rest = rest a s
answering envid (fail e s) rest = ipc_send envid (error e) no_page s
answering envid panic rest = panic

abbrev pub checked {ℓ} :
    {A : Type ℓ} → ℕ → Cmd Server A → (A → Cmd Server (Unit {0})) → Cmd Server (Unit {0})
checked envid m rest s = answering envid (m s) rest

pub data Request : Type 0 where
  req_open : List ℕ → ℕ → Request
  req_map : ℕ → ℕ → Request
  req_set_size : ℕ → ℕ → Request
  req_close : ℕ → Request
  req_dirty : ℕ → ℕ → Request
  req_remove : List ℕ → Request
  req_sync : Request
  req_create : List ℕ → ℕ → Request
  req_other : Request

module _ (mem_alloc mem_map : Answer) (page_alloc : Server → ℕ → Option Errno) where
  -- `serve_open` behind `open_alloc`, with the entry `i`.
  pub open_in : ℕ → List ℕ → ℕ → ℕ → Cmd Server (Unit {0})
  unfolding answering
  open_in envid path omode i = checked envid (on_fs (file_open mem_alloc path)) λ f. do
    v ← on_fs (get_file f)
    modify λ s. record s {
      opentab = update s.opentab i (record (s.opentab i) { o_file = some f; o_mode = omode });
      filefds = update s.filefds i (record {
        f_file = v;
        f_fileid = (s.opentab i).o_fileid;
        fd_omode = omode;
        fd_dev_id = file_dev_id;
      });
    }
    ipc_send envid zero_value (filefd_page i)

  -- After an error of `open_alloc` the source goes on, with a pointer that has no value.
  pub open_with : ℕ → List ℕ → ℕ → Outcome Server ℕ → Outcome Server (Unit {0})
  unfolding open_in
  open_with envid path omode (done i s) =
      let id = (s.opentab i).o_fileid in
      ((if leb (2 ^ 31) id then ipc_send envid (word id) no_page else skip)
          >> open_in envid path omode i)
        s
  open_with envid path omode (fail e s) =
      (ipc_send envid (error e) no_page
          >> checked envid (on_fs (file_open mem_alloc path)) (λ f. halt))
        s
  open_with envid path omode panic = panic

  pub serve_open : ℕ → List ℕ → ℕ → Cmd Server (Unit {0})
  unfolding open_with
  serve_open envid path omode s = open_with envid path omode (open_alloc page_alloc s)

  pub serve_map : ℕ → ℕ → ℕ → Cmd Server (Unit {0})
  serve_map envid fileid offset = checked envid (open_lookup fileid) λ i. do
    f ← file_of i
    checked envid (on_fs (file_get_block mem_alloc f (offset / by2blk)))
        λ d. ipc_send envid zero_value (block_page d)

  pub serve_set_size : ℕ → ℕ → ℕ → Cmd Server (Unit {0})
  serve_set_size envid fileid size = checked envid (open_lookup fileid) λ i. do
    f ← file_of i
    checked envid (on_fs (file_set_size mem_alloc f size)) λ u. ipc_send envid zero_value no_page

  -- `file_close` returns nothing.
  pub serve_close : ℕ → ℕ → Cmd Server (Unit {0})
  serve_close envid fileid =
      checked envid (open_lookup fileid)
        λ i. do f ← file_of i; on_fs (file_close mem_alloc f); ipc_send envid zero_value no_page

  pub serve_remove : ℕ → List ℕ → Cmd Server (Unit {0})
  serve_remove envid path =
      checked envid (on_fs (file_remove mem_alloc path)) λ u. ipc_send envid zero_value no_page

  pub serve_dirty : ℕ → ℕ → ℕ → Cmd Server (Unit {0})
  serve_dirty envid fileid offset = checked envid (open_lookup fileid) λ i. do
    f ← file_of i
    checked envid (on_fs (file_dirty mem_alloc mem_map f offset))
        λ u. ipc_send envid zero_value no_page

  pub serve_sync : ℕ → Cmd Server (Unit {0})
  serve_sync envid = do on_fs fs_sync; ipc_send envid zero_value no_page

  pub serve_create : ℕ → List ℕ → ℕ → Cmd Server (Unit {0})
  serve_create envid path type =
      checked envid (on_fs (file_create mem_alloc path)) λ f. do
        on_fs (set_file f λ v. record v { f_type = type })
        ipc_send envid zero_value no_page

  -- One round of `serve`: `arg` says that the request came with a page.
  pub serve_request : ℕ → Bool → Request → Cmd Server (Unit {0})
  unfolding serve_open serve_map serve_set_size serve_close serve_dirty serve_remove serve_sync
      serve_create
  serve_request whom false r = skip
  serve_request whom true (req_open path omode) = serve_open whom path omode
  serve_request whom true (req_map fileid offset) = serve_map whom fileid offset
  serve_request whom true (req_set_size fileid size) = serve_set_size whom fileid size
  serve_request whom true (req_close fileid) = serve_close whom fileid
  serve_request whom true (req_dirty fileid offset) = serve_dirty whom fileid offset
  serve_request whom true (req_remove path) = serve_remove whom path
  serve_request whom true req_sync = serve_sync whom
  serve_request whom true (req_create path type) = serve_create whom path type
  serve_request whom true req_other = skip
