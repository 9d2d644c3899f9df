-- ===== src/App/File/Tests.antt =====
-- Names and URIs of files.
use http_file_sharing.Prelude.{codes}
use http_file_sharing.Http.Request.{HttpRequest, new_request}

abbrev asked : HttpRequest
asked = record new_request { m_method = codes "GET"; m_uri = codes "/my%20file.txt" }
