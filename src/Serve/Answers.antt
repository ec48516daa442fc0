-- ===== src/Serve/Answers.antt =====
-- Every request to fs/serv.c that comes with a page gets one answer.
use buaa_os.Prelude.{
  ℕ, ◌/◌, ◌%◌, ◌≡◌, inl, inr, refl, true, not, ◌||◌, Option, ◌∷◌, ◌==◌, Bool-cases, Option-cases,
  ap,
}
use buaa_os.Prelude.Outcome.{
  Outcome, Cmd, Errno, done, fail, panic, ◌>>=◌, ◌>>◌, IfEnds, IfEnds-bind, lifting,
}
use buaa_os.Fs.{Fs, Answer}
use buaa_os.Fs.Data.{FileRef, by2blk}
use buaa_os.Fs.Files.{set_file, file_get_block, file_set_size, file_close, file_dirty, fs_sync}
use buaa_os.Fs.Files.Flush.{NoError, file_close-NoError, fs_sync-NoError}
use buaa_os.Fs.Dirs.{file_create, file_remove}
use buaa_os.Serve.{
  Server, Value, zero_value, error, Page, no_page, block_page, on_fs, ipc_send, open_lookup,
  file_of, opened_file, answering, checked, Request, req_open, req_map, req_set_size, req_close,
  req_dirty, req_remove, req_sync, req_create, req_other, serve_map, serve_set_size, serve_close,
  serve_remove, serve_dirty, serve_sync, serve_create, serve_request,
}

-- One answer has gone to `whom`, whatever it is.
abbrev pub Answered : ℕ → Server → Server → Type 0
Answered whom s t =
    (v : Value) × (p : Page) × (t.sent ≡ record { to = whom; value = v; page = p } ∷ s.sent)

-- Nothing has been sent.
abbrev Silent : Server → Server → Type 0
Silent s t = t.sent ≡ s.sent

one_more :
    (whom : ℕ) (v : Value) (p : Page) (s t : Server)
    → Silent s t
    → Answered whom s (record t { sent = record { to = whom; value = v; page = p } ∷ t.sent })
one_more whom v p s t h = (v, p, ap (λ l. record { to = whom; value = v; page = p } ∷ l) h)

abbrev Quiet {ℓ} : {A : Type ℓ} → Server → Outcome Server A → Type 0
Quiet s r = IfEnds (λ _ t. Silent s t) (λ _ t. Silent s t) r

-- The server halts, or has sent one answer; the request does not end otherwise.
abbrev pub Answers : ℕ → Server → Outcome Server (Unit {0}) → Type 0
Answers whom s r = IfEnds (λ _ t. Answered whom s t) (λ e t. ⊥) r

on_fs-Quiet {ℓ} : {A : Type ℓ} (s t : Server) (m : Cmd Fs A) → Silent s t → Quiet s (on_fs m t)
on_fs-Quiet s t m h = lifted (m t.fs)
  where
    lifted : {A : Type ℓ} (r : Outcome Fs A) → Quiet s (lifting (λ f. record t { fs = f }) r)
    lifted (done a f) = h
    lifted (fail e f) = h
    lifted panic = tt

open_lookup-Quiet : (s t : Server) (id : ℕ) → Silent s t → Quiet s (open_lookup id t)
unfolding open_lookup
open_lookup-Quiet s t id h =
    elim (Bool-cases (t.refs (id % 1024) == 1 || not ((t.opentab (id % 1024)).o_fileid == id))) [
      | inl bad ↦ rw bad h
      | inr good ↦ rw good h
    ]

answering-Answered {ℓ} :
    {A : Type ℓ} (whom : ℕ) (s : Server) (r : Outcome Server A) (rest : A → Cmd Server (Unit {0}))
    → Quiet s r
    → ((a : A) (t : Server) → Silent s t → Answers whom s (rest a t))
    → Answers whom s (answering whom r rest)
unfolding answering
answering-Answered whom s (done a t) rest h k = k a t h
answering-Answered whom s (fail e t) rest h k = one_more whom (error e) no_page s t h
answering-Answered whom s panic rest h k = tt

file_of-Answered :
    (whom : ℕ) (s t : Server) (i : ℕ) (rest : FileRef → Cmd Server (Unit {0}))
    → ((f : FileRef) → Answers whom s (rest f t))
    → Answers whom s ((file_of i >>= rest) t)
unfolding file_of opened_file
file_of-Answered whom s t i rest h = elim (Option-cases (t.opentab i).o_file) [
  | inl e ↦ rw e tt
  | inr (f, e) ↦ rw e (h f)
]

-- A call of the file system, and the answer 0 with a page.
fs_call-Answered {ℓ} :
    {A : Type ℓ} (whom : ℕ) (s t : Server) (m : Cmd Fs A) (page : A → Page)
    → Silent s t
    → Answers whom s (checked whom (on_fs m) (λ a. ipc_send whom zero_value (page a)) t)
fs_call-Answered whom s t m page h =
    answering-Answered whom s (on_fs m t) _ (on_fs-Quiet s t m h)
      (λ a u k. one_more whom zero_value (page a) s u k)

-- The same behind `open_lookup`.
lookup-Answered :
    (whom id : ℕ) (s : Server) (body : FileRef → Cmd Server (Unit {0}))
    → ((f : FileRef) (t : Server) → Silent s t → Answers whom s (body f t))
    → Answers whom s (checked whom (open_lookup id) (λ i. file_of i >>= body) s)
lookup-Answered whom id s body h =
    answering-Answered whom s (open_lookup id s) _ (open_lookup-Quiet s s id refl)
      (λ i t k. file_of-Answered whom s t i body (λ f. h f t k))

-- A call that does not fail, and the answer 0.
plain-Answered :
    (whom : ℕ) (s t : Server) (m : Cmd Fs (Unit {0}))
    → ((f : Fs) → NoError (m f))
    → Silent s t
    → Answers whom s ((on_fs m >> ipc_send whom zero_value no_page) t)
plain-Answered whom s t m ok h =
    IfEnds-bind (λ _ u. Silent s u) _ _ (on_fs m t) _ (silent (m t.fs) (ok t.fs))
      (λ a u k. one_more whom zero_value no_page s u k)
  where
    silent :
        (r : Outcome Fs (Unit {0}))
        → NoError r
        → IfEnds (λ _ u. Silent s u) (λ e u. ⊥) (lifting (λ f. record t { fs = f }) r)
    silent (done a f) k = h
    silent (fail e f) k = k
    silent panic k = tt

-- The requests that get an answer: all but those with an unknown code, and `req_open`.
abbrev pub Plain : Request → Type 0
Plain (req_open path omode) = ⊥
Plain req_other = ⊥
Plain r = Unit {0}

module _ (mem_alloc mem_map : Answer) (page_alloc : Server → ℕ → Option Errno) (whom : ℕ)
    (s : Server) where
  -- A request with an argument page, and with a known code other than FSREQ_OPEN: the server halts by it, or it has
  -- sent one answer, to the environment that asked.
  pub serve_request-Answered :
      (r : Request)
      → Plain r
      → Answers whom s (serve_request mem_alloc mem_map page_alloc whom true r s)
  unfolding serve_request serve_map serve_set_size serve_close serve_remove serve_dirty serve_sync
      serve_create
  serve_request-Answered (req_open path omode) known = absurd known
  serve_request-Answered req_other known = absurd known
  serve_request-Answered (req_map id offset) known = lookup-Answered whom id s _ (λ f t h.
      fs_call-Answered whom s t (file_get_block mem_alloc f (offset / by2blk)) block_page h)
  serve_request-Answered (req_set_size id size) known =
      lookup-Answered whom id s _
        (λ f t h. fs_call-Answered whom s t (file_set_size mem_alloc f size) (λ u. no_page) h)
  serve_request-Answered (req_close id) known =
      lookup-Answered whom id s _ (λ f t h.
        plain-Answered whom s t (file_close mem_alloc f) (file_close-NoError mem_alloc f) h)
  serve_request-Answered (req_dirty id offset) known =
      lookup-Answered whom id s _ (λ f t h.
        fs_call-Answered whom s t (file_dirty mem_alloc mem_map f offset) (λ u. no_page) h)
  serve_request-Answered (req_remove path) known =
      fs_call-Answered whom s s (file_remove mem_alloc path) (λ u. no_page) refl
  serve_request-Answered req_sync known = plain-Answered whom s s fs_sync fs_sync-NoError refl
  serve_request-Answered (req_create path type) known =
      answering-Answered whom s (on_fs (file_create mem_alloc path) s) _
        (on_fs-Quiet s s (file_create mem_alloc path) refl)
        (λ f t h.
          plain-Answered whom s t (set_file f (λ v. record v { f_type = type })) (λ g. tt) h)
