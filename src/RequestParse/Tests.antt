-- ===== src/RequestParse/Tests.antt =====
-- Runs of mine/practice/httpRequestParse.cpp.
use study_record.Common.{ℕ, ◌≡◌, refl, List, [], ◌∷◌, ◌++◌, codes, arith}
use study_record.Common.Run.{ok, Ends}
use study_record.Common.CString.{same_nocase}
use study_record.Http.Receive.{got}
use study_record.RequestParse.{Parser, parse_content, start, serve_loop, correct}
use study_record.RequestParse.Lines.{Within, parse_content-Ends}
use study_record.RequestParse.Request.{request, IsRequest, request_answered}

-- Bytes of a line that is not yet whole.
abbrev begun : Parser
begun = record start { buffer = codes "GET /a" ++ 0 ∷ []; read_index = 6 }

parse_content-Ends_example : Ends (Within 0 6) (parse_content begun)
parse_content-Ends_example = parse_content-Ends begun (omega arith)

abbrev get_line : List ℕ
get_line = codes "get  /a HTTP/1.1"

abbrev host_line : List ℕ
host_line = codes "Host: b"

get_line-IsRequest : IsRequest get_line (host_line ∷ [])
unfolding same_nocase
get_line-IsRequest = record {
  method = codes "get";
  url = codes "/a";
  version = codes "HTTP/1.1";
  rest = codes "a";
  words = record {
    sep = 32;
    gap = 32 ∷ [];
    sep' = 32;
    gap' = [];
    shape = refl;
    method_word = refl;
    sep_blank = refl;
    gap_blank = refl;
    url_word = refl;
    url_some = λ e. cc;
    sep'_blank = refl;
    gap'_blank = refl;
    version_start = refl;
  };
  path = refl;
  is_get = refl;
  is_version = refl;
  plain = refl;
  headers = refl;
}

request_answered_example :
    serve_loop (got (request get_line (host_line ∷ [])) ∷ []) start ≡ ok correct
request_answered_example =
    request_answered get_line (host_line ∷ []) [] get_line-IsRequest (omega arith)
