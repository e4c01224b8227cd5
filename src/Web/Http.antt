-- ===== src/Web/Http.antt =====
-- runtime/include/simple/web/http.h and the classes of characters of runtime/src/web/http.cpp. A text
-- is the list of its bytes; a byte above 127, negative as a char, is no HTTP character and no control
-- character either way.
pub mod RequestLine
pub mod ReplyLine
pub mod HeaderLine
pub mod Fields
pub mod Lines
pub mod Requests
pub mod Stock
pub mod Replies
pub mod Parser
pub mod Printing
use simple.Prelude.{ℕ, Bool, true, false, leb, ◌==◌, ◌&&◌, ◌||◌, not, List, []}

-- `name` and `value` of a header.
pub record Header : Type 0 where
  pub name : List ℕ
  pub value : List ℕ

pub record Request : Type 0 where
  pub method : List ℕ
  pub uri : List ℕ
  pub version_major : ℕ
  pub version_minor : ℕ
  pub headers : List Header
  pub content : List ℕ

-- A status is the number that the enum stands for: the parser casts any number to it.
pub record Reply : Type 0 where
  pub status : ℕ
  pub headers : List Header
  pub content : List ℕ

abbrev pub new_request : Request
new_request = record {
  method = [];
  uri = [];
  version_major = 0;
  version_minor = 0;
  headers = [];
  content = [];
}

abbrev pub new_reply : Reply
new_reply = record { status = 200; headers = []; content = [] }

unfoldable pub is_char : ℕ → Bool
is_char c = leb c 127

unfoldable pub is_ctl : ℕ → Bool
is_ctl c = leb c 31 || c == 127

unfoldable pub is_special : ℕ → Bool
is_special c =
    c == 40
    || c == 41
    || c == 60
    || c == 62
    || c == 64
    || c == 44
    || c == 59
    || c == 58
    || c == 92
    || c == 34
    || c == 47
    || c == 91
    || c == 93
    || c == 63
    || c == 61
    || c == 123
    || c == 125
    || c == 32
    || c == 9

-- std::isdigit
unfoldable pub is_digit : ℕ → Bool
is_digit c = leb 48 c && leb c 57

-- The test with which a byte of a method or a name is refused.
unfoldable pub is_refused : ℕ → Bool
is_refused c = not (is_char c) || is_ctl c || is_special c

pub data LineState : Type 0 where
  method_start method uri version_h version_t_1 version_t_2 version_p version_slash : LineState
  version_major_start version_major version_minor_start version_minor : LineState
  status_start status reason : LineState
