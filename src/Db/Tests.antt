-- ===== src/Db/Tests.antt =====
-- The theorem at a concrete network.
use soju.Prelude.{◌≡◌, []}
use soju.Prelude.Text.{codes, str_eq}
use soju.Conn.{Network}
use soju.Db.{read_row, write_row, read_row-write_row}

abbrev external : Network
external = record {
  id = 3;
  addr = codes "irc.example.org";
  nick = codes "bob";
  username = [];
  realname = codes "Bob";
  pass = [];
  sasl = record { mechanism = codes "EXTERNAL"; plain_username = codes "bob"; plain_password = [] };
}

read_row-write_row_example :
    read_row (record { id = 3; columns = write_row external }) ≡ record external {
      sasl = record { mechanism = codes "EXTERNAL"; plain_username = []; plain_password = [] };
    }
unfolding str_eq
read_row-write_row_example = read_row-write_row external 3
