-- ===== src/Main/Help.antt =====
-- src/main.cc: the texts of the usage, the flags that main declares to the parser, and what main
-- prints when it leaves through a catch clause.
use total_order_multicast.Common.{ℕ, List, [], ◌∷◌, ◌++◌, Option, none, some, Exception}
use total_order_multicast.Common.Text.{codes, decimal}
use total_order_multicast.Message.{SeqMessage}

abbrev newline : List ℕ
newline = 10 ∷ []

abbrev pub program_desc : List ℕ
program_desc = codes "An implementation of the ISIS Total Order Multicast Algorithm."

abbrev pub help_desc : List ℕ
help_desc = codes "Display this help menu."

abbrev pub port_desc : List ℕ
port_desc =
    codes "The port identifies on which port the process will be listening on for "
    ++ codes "incoming messages. It can take any integer from 1024 to 65535. Can be "
    ++ codes "overridden by specifying a port on a host in the hostfile using "
    ++ codes "<hostname>:<port> notation. Not required if all hosts have specified ports in "
    ++ codes "the hostfile. Required otherwise."

abbrev pub hostfile_desc : List ℕ
hostfile_desc =
    codes "The hostfile is the path to a file that contains the list of hostnames that "
    ++ codes "the processes are running on. It should be in the following format."
    ++ newline
    ++ codes "`"
    ++ newline
    ++ codes "xinu01.cs.purdue.edu"
    ++ newline
    ++ codes "xinu02.cs.purdue.edu"
    ++ newline
    ++ codes "..."
    ++ newline
    ++ codes "`"
    ++ newline
    ++ codes "All the processes will listen on the port, specified by the port flag. "
    ++ codes "Alternatively, hosts can specify an alternate port using <hostname>:<port> "
    ++ codes "notation, like:"
    ++ newline
    ++ codes "`"
    ++ newline
    ++ codes "xinu01.cs.purdue.edu:1234"
    ++ newline
    ++ codes "xinu01.cs.purdue.edu:1235"
    ++ newline
    ++ codes "..."
    ++ newline
    ++ codes "`"
    ++ newline
    ++ codes "This makes it possible to run multiple processes on the same host. The line "
    ++ codes "number indicates the identifier of the process."

abbrev pub id_desc : List ℕ
id_desc =
    codes "The optional id specifier of this process. Only needed if multiple processes "
    ++ codes "in the hostfile are running on the same host, otherwise it can be deduced "
    ++ codes "from the hostfile. 0-indexed."

abbrev pub count_desc : List ℕ
count_desc =
    codes "The count indicates the number of messages the process needs to multicast. "
    ++ codes "The value of count is non-negative. The process should remain operational "
    ++ codes "once started, even if the count is 0 or the process finishes multicasting all "
    ++ codes "its messages."

abbrev pub delays_desc : List ℕ
delays_desc =
    codes "When set, the delays flag indicates that random delays should be introduced "
    ++ codes "when sending messages between processes."

abbrev pub verbose_desc : List ℕ
verbose_desc = codes "Sets the logging level to verbose."

-- The escape sequences for red; 27 is the escape.
abbrev pub red_start : List ℕ
red_start = 27 ∷ codes "[1;31m"

abbrev pub red_end : List ℕ
red_end = 27 ∷ codes "[0m"

-- What a flag takes.
pub data Kind : Type 0 where
  help_flag switch int_value string_value : Kind

-- A flag: its name, its description, and the letter and the word that stand for it.
pub record Declared : Type 0 where
  pub kind : Kind
  pub name : List ℕ
  pub description : List ℕ
  pub letter : Option ℕ
  pub word : List ℕ

-- The flags in the order in which main adds them to the parser.
abbrev pub declared_flags : List Declared
declared_flags =
    record {
      kind = help_flag;
      name = codes "help";
      description = help_desc;
      letter = none;
      word = codes "help";
    }
    ∷ record {
      kind = int_value;
      name = codes "port";
      description = port_desc;
      letter = some 112;
      word = codes "port";
    }
    ∷ record {
      kind = string_value;
      name = codes "hostfile";
      description = hostfile_desc;
      letter = some 104;
      word = codes "hostfile";
    }
    ∷ record {
      kind = int_value;
      name = codes "id";
      description = id_desc;
      letter = some 105;
      word = codes "id";
    }
    ∷ record {
      kind = int_value;
      name = codes "count";
      description = count_desc;
      letter = some 99;
      word = codes "count";
    }
    ∷ record {
      kind = switch;
      name = codes "delays";
      description = delays_desc;
      letter = some 100;
      word = codes "delays";
    }
    ∷ record {
      kind = switch;
      name = codes "verbose";
      description = verbose_desc;
      letter = some 118;
      word = codes "verbose";
    }
    ∷ []

-- What the catch clauses print to the standard error, for the text `what` of the exception and the
-- usage that the parser prints.
abbrev pub printed : List ℕ → Exception → List ℕ → List ℕ
printed usage Exception.usage_error what =
    newline ++ (codes "  " ++ (red_start ++ (what ++ (red_end ++ (newline ++ (newline ++ usage))))))
printed usage x what = red_start ++ (what ++ (red_end ++ newline))

-- The callback of main that prints a delivery of process `id`, and the lines of a whole log.
abbrev pub show_delivery : ℕ → SeqMessage → List ℕ
show_delivery id m =
    decimal id
    ++ (codes ": Processed message "
        ++ (decimal m.msg_id
            ++ (codes " from sender "
                ++ (decimal m.sender
                    ++ (codes " with seq ("
                        ++ (decimal m.final_seq
                            ++ (codes ", "
                                ++ (decimal m.final_seq_proposer ++ (codes ")" ++ newline)))))))))

abbrev pub show_log : ℕ → List SeqMessage → List ℕ
show_log id [] = []
show_log id (m ∷ ms) = show_delivery id m ++ show_log id ms
