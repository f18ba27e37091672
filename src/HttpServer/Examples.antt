-- ===== src/HttpServer/Examples.antt =====
-- The theorems of the server of files at concrete inputs.
use xyco.Common.{
  ℕ, ◌≡◌, refl, Option, none, some, List, [], ◌∷◌, ◌++◌, arith, codes, pos, same, if◌then◌else◌,
}
use xyco.Utils.Error.{Error, ok, from_sys_error}
use xyco.HttpServer.{endless, get}
use xyco.HttpServer.Words.{request_text}
use xyco.HttpServer.Receive.{receive_request, content_length, emplace, from_chars}
use xyco.HttpServer.Receive.Fields.{Field}
use xyco.HttpServer.Receive.Heads.{AreFields, stored}
use xyco.HttpServer.Receive.Whole.{head_of, receive_request-endless}

abbrev url : List ℕ
url = codes "/a"

abbrev version : List ℕ
version = codes "HTTP/1.1"

abbrev fields : List Field
fields =
    (codes "Host", codes "h") ∷ (codes "Content-Length", codes "2") ∷ (codes "Host", codes "g") ∷ []

abbrev body : List (List ℕ)
body = codes "h" ∷ codes "i" ∷ []

abbrev missing : Error
missing = from_sys_error (pos 2)

-- The one file has two lines.
abbrev files : List ℕ → Option (List (List ℕ))
files path = if same path (codes "./a") then some (codes "x" ∷ codes "y" ∷ []) else none

fields-AreFields : AreFields fields
fields-AreFields = ground arith

fields-content_length : content_length (stored [] fields) ≡ pos 2
unfolding content_length emplace from_chars
fields-content_length = refl

receive_request-endless_example :
    receive_request 9
      (ok tt)
      (ok (head_of (request_text get url version) fields ++ codes "hi") ∷ [])
    ≡ endless
receive_request-endless_example =
    receive_request-endless 9 2 (ok tt) (request_text get url version) fields (codes "hi")
      (ground arith) fields-AreFields (omega arith) fields-content_length (omega arith)
      (omega arith)
