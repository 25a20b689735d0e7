-- ===== src/Getwork/Fuel.antt =====
-- libpoolprotocols/getwork/EthGetworkClient.cpp: the loop of `handle_read` over the lines of an HTTP
-- response ends.
use firominer.Getwork.{Getwork}
