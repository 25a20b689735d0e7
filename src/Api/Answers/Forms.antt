-- ===== src/Api/Answers/Forms.antt =====
-- libapicore/ApiServer.cpp: `processRequest` answers with a result or with an error.
use firominer.Api.{Api}
