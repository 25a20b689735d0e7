-- ===== src/Api/Server/Start.antt =====
-- libapicore/ApiServer.cpp: the thread of the server that accepts before the server is running.
use firominer.Api.Server.{Server}
