-- ===== src/Serve/Tests.antt =====
-- Examples for fs/serv.c: the table after `serve_init`, with one entry that a client has open.
use buaa_os.Prelude.{ℕ, true, false, none, some, [], arith, ◌==◌, if◌then◌else◌, Option}
use buaa_os.Prelude.Outcome.{Ends, Errno}
use buaa_os.Fs.{Fs, Answer}
use buaa_os.Fs.Data.{blank_file, blank_block, root}
use buaa_os.Serve.{Server, blank_filefd, open_alloc, serve_request, req_map}
use buaa_os.Serve.Opens.{IsTable, Given, Refused, open_alloc-Given}
use buaa_os.Serve.Answers.{Answers, serve_request-Answered}

abbrev disk : Fs
disk = record {
  nblocks = some 40;
  loaded = true;
  root_node = blank_file;
  cache = λ i. blank_block;
  disk = λ i. blank_block;
  bitmap = λ i. 0;
  mapped = λ i. i == 2;
  dirty = λ i. false;
  ide = [];
}

abbrev server : Server
server = record {
  fs = disk;
  opentab = λ i. record { o_file = some root; o_fileid = i; o_mode = 0 };
  filefds = λ i. blank_filefd;
  refs = λ i. if i == 0 then 2 else 0;
  sent = [];
}

abbrev grants : Answer
grants s i = none

abbrev pages : Server → ℕ → Option Errno
pages s i = none

server-IsTable : IsTable server
server-IsTable i low = (omega arith, omega arith)

open_alloc-Given_example :
    Ends (λ r t. Given server r t) (λ e t. Refused pages server e t) (open_alloc pages server)
open_alloc-Given_example = open_alloc-Given pages server server-IsTable

serve_request-Answered_example :
    Answers 7 server (serve_request grants grants pages 7 true (req_map 0 4096) server)
serve_request-Answered_example =
    serve_request-Answered grants grants pages 7 server (req_map 0 4096) tt
