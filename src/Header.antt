-- ===== src/Header.antt =====
-- js/src/Header.ts: the names of the headers that the protocol knows.
use interop.Base.{Str, codes}

abbrev pub id : Str
id = codes "Interop-Rpc-Id"

abbrev pub content_type : Str
content_type = codes "Content-Type"

abbrev pub class : Str
class = codes "Interop-Rpc-Class"

abbrev pub error : Str
error = codes "Interop-Error"

abbrev pub content_length : Str
content_length = codes "Content-Length"
